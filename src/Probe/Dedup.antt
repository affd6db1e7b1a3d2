-- ===== src/Probe/Dedup.antt =====
-- The cache that suppresses events which another probe of the site has reported already: `shouldDedup` and
-- `cleanupDedupCache`.
pub mod Window
use oblimap.Base.{
  ℕ, zero, suc, ◌+◌, ◌-◌, ◌*◌, ◌≤◌, ◌<◌, ◌≡◌, refl, ap, Bool, true, false, not, ◌&&◌, Option, none,
  some, List, [], ◌∷◌, ◌==◌, ◌=ᵗ◌, ◌=ᵗ?◌, ltb, if◌then◌else◌, Text, arith, Bool-cases, inl, inr,
  text_eq→≡, text_eq_refl, ==_iff, ==_refl,
}

pub data ChangeType : Type 0 where
  online offline new conflict : ChangeType

abbrev pub same_change : ChangeType → ChangeType → Bool
same_change online online = true
same_change offline offline = true
same_change new new = true
same_change conflict conflict = true
same_change _ _ = false

-- The parts of the key's text.
pub record DedupKey : Type 0 where
  pub tenant_id : ℕ
  pub site_id : ℕ
  pub mac : Option Text
  pub change_type : ChangeType

abbrev pub same_key : DedupKey → DedupKey → Bool
same_key j k =
    (j.tenant_id == k.tenant_id && j.site_id == k.site_id)
    && (j.mac =ᵗ? k.mac && same_change j.change_type k.change_type)

pub record DedupEntry : Type 0 where
  pub ts : ℕ
  pub probe_id : ℕ
  pub is_primary : Bool

abbrev pub DedupCache : Type 0
DedupCache = DedupKey → Option DedupEntry

abbrev pub dedup_ttl_ms : ℕ
dedup_ttl_ms = 60000

-- `dedupCache.set(key, entry)`
abbrev pub cached : DedupKey → DedupEntry → DedupCache → DedupCache
cached key entry cache k = if same_key k key then some entry else cache k

abbrev pub is_conflict : ChangeType → Bool
is_conflict online = false
is_conflict offline = false
is_conflict new = false
is_conflict conflict = true

-- A probe that reports a change, and when.
pub record Report : Type 0 where
  pub key : DedupKey
  pub now : ℕ
  pub probe_id : ℕ
  pub is_primary : Bool

abbrev pub entry_of : Report → DedupEntry
entry_of r = record { ts = r.now; probe_id = r.probe_id; is_primary = r.is_primary }

-- `shouldDedup`, once the entry is looked up.
unfoldable pub decide : Report → Option DedupEntry → DedupCache → Bool × DedupCache
decide r none cache = (false, cached r.key (entry_of r) cache)
decide r (some existing) cache =
    let kept : Bool × DedupCache = (true, cache) in
    let replaced : Bool × DedupCache = (false, cached r.key (entry_of r) cache) in
    if ltb (r.now - existing.ts) dedup_ttl_ms
    then (if r.is_primary && not existing.is_primary then replaced else kept)
    else replaced

-- `shouldDedup`: true where the event is skipped. `now` is never before the time in the cache.
unfoldable pub should_dedup : Report → DedupCache → Bool × DedupCache
unfolding decide
should_dedup r cache =
    let free : Bool × DedupCache = (false, cache) in
    let decided = decide r (cache r.key) cache in
    if is_conflict r.key.change_type then free else decided

abbrev unless_expired : ℕ → Option DedupEntry → Option DedupEntry
unless_expired now none = none
unless_expired now (some entry) = if ltb dedup_ttl_ms (now - entry.ts) then none else some entry

-- `cleanupDedupCache`
unfoldable pub cleanup_dedup_cache : ℕ → DedupCache → DedupCache
cleanup_dedup_cache now cache k = unless_expired now (cache k)

-- How many of the reports of a key are not suppressed.
unfoldable pub passed : DedupKey → List Report → DedupCache → ℕ
unfolding should_dedup
passed key [] cache = 0
passed key (r ∷ rs) cache =
    (if same_key key r.key && not (should_dedup r cache).0 then 1 else 0)
    + passed key rs (should_dedup r cache).1
