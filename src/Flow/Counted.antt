-- ===== src/Flow/Counted.antt =====
-- Every report of a flow is counted once, in one row for its key.
use oblimap.Base.{
  ℕ, ◌+◌, ◌≤◌, ◌≡◌, refl, ap, subst, ◌∙◌, Bool, true, ◌&&◌, Option, none, some, List, [], ◌∷◌, ◌==◌,
  ==_iff, ◌=ᵗ◌, text_eq→≡, if◌then◌else◌, first, update, where_, count_where, count-update_same,
  count_row, first→mem, first-none-count, arith, Bool-cases, inl, inr,
}
use oblimap.Flow.{
  NetworkFlow, FlowEntry, FlowScan, FlowKey, Flows, key_of, has_key, protocol_of, counted, new_flow,
  store_flow, process_flow, process_flows,
}

-- The connections in the rows of a key.
unfoldable pub total : FlowKey → List NetworkFlow → ℕ
total k [] = 0
total k (r ∷ rs) = (if has_key k r then r.connection_count else 0) + total k rs

-- The report of a flow has this key.
abbrev pub is_report : FlowScan → FlowKey → FlowEntry → Bool
is_report s k f =
    ((s.site_id == k.site_id && s.tenant_id == k.tenant_id)
      && (f.source_ip =ᵗ k.source_ip && f.dest_ip =ᵗ k.dest_ip))
    && (f.dest_port == k.dest_port && protocol_of f =ᵗ k.protocol)

-- How often a key is reported.
unfoldable pub reports : FlowScan → FlowKey → List FlowEntry → ℕ
reports s k [] = 0
reports s k (f ∷ fs) = (if is_report s k f then 1 else 0) + reports s k fs

-- Ids are distinct and below the next one, and there is one row for a key at most.
pub record IsTallied (t : Flows) : Type 0 where
  pub distinct : (id : ℕ) → count_where (λ r. r.id == id) t.rows ≤ 1
  pub fresh : (id : ℕ) → t.next_id ≤ id → count_where (λ r. r.id == id) t.rows ≡ 0
  pub apart : (k : FlowKey) → count_where (has_key k) t.rows ≤ 1

report_key : (s : FlowScan) (k : FlowKey) (f : FlowEntry) → is_report s k f ≡ true → key_of s f ≡ k
report_key s k f h =
    let a : s.site_id ≡ k.site_id = (==_iff _ _).0 (ground (arith, h)) in
    let b : s.tenant_id ≡ k.tenant_id = (==_iff _ _).0 (ground (arith, h)) in
    let c : f.source_ip ≡ k.source_ip = text_eq→≡ _ _ (ground (arith, h)) in
    let d : f.dest_ip ≡ k.dest_ip = text_eq→≡ _ _ (ground (arith, h)) in
    let e : f.dest_port ≡ k.dest_port = (==_iff _ _).0 (ground (arith, h)) in
    let p : protocol_of f ≡ k.protocol = text_eq→≡ _ _ (ground (arith, h)) in
    λ i. record {
      site_id = a i;
      tenant_id = b i;
      source_ip = c i;
      dest_ip = d i;
      dest_port = e i;
      protocol = p i;
    }

row_key :
    (s : FlowScan) (k : FlowKey) (f : FlowEntry) (x : NetworkFlow)
    → has_key (key_of s f) x ≡ true
    → has_key k x ≡ is_report s k f
row_key s k f x h =
    let a : x.site_id ≡ s.site_id = (==_iff _ _).0 (ground (arith, h)) in
    let b : x.tenant_id ≡ s.tenant_id = (==_iff _ _).0 (ground (arith, h)) in
    let c : x.source_ip ≡ f.source_ip = text_eq→≡ _ _ (ground (arith, h)) in
    let d : x.dest_ip ≡ f.dest_ip = text_eq→≡ _ _ (ground (arith, h)) in
    let e : x.dest_port ≡ f.dest_port = (==_iff _ _).0 (ground (arith, h)) in
    let p : x.protocol ≡ protocol_of f = text_eq→≡ _ _ (ground (arith, h)) in
    λ i.
      ((a i == k.site_id && b i == k.tenant_id) && (c i =ᵗ k.source_ip && d i =ᵗ k.dest_ip))
      && (e i == k.dest_port && p i =ᵗ k.protocol)

total-update :
    (s : FlowScan) (f : FlowEntry) (x : NetworkFlow) (k : FlowKey) (rows : List NetworkFlow)
    → total k (update (λ r. r.id == x.id) (counted s f x) rows)
      ≡ total k rows + count_where (λ r. r.id == x.id && has_key k r) rows
unfolding total update counted count_where where_
total-update s f x k [] = refl
total-update s f x k (r ∷ rows) = ground (arith, total-update s f x k rows)

store_flow-total :
    (s : FlowScan) (f : FlowEntry) (t : Flows) (k : FlowKey) (o : Option NetworkFlow)
    → first (has_key (key_of s f)) t.rows ≡ o
    → IsTallied t
    → total k (store_flow s f o t).rows ≡ total k t.rows + (if is_report s k f then 1 else 0)
unfolding store_flow new_flow total
store_flow-total s f t k none h w = ground arith
store_flow-total s f t k (some x) h w =
    let (m, e) = first→mem (has_key (key_of s f)) x t.rows h in
    let own : count_where (λ r. r.id == x.id && has_key k r) t.rows
        ≡ (if is_report s k f then 1 else 0) =
      count_row (λ r. r.id) (has_key k) x t.rows w.distinct m
      ∙ ap (λ b. if b then 1 else 0) (row_key s k f x e) in
    omega (arith, own, total-update s f x k t.rows)

store_flow-IsTallied :
    (s : FlowScan) (f : FlowEntry) (t : Flows) (o : Option NetworkFlow)
    → first (has_key (key_of s f)) t.rows ≡ o
    → IsTallied t
    → IsTallied (store_flow s f o t)
unfolding store_flow new_flow counted count_where where_
store_flow-IsTallied s f t none h w = record {
  distinct = λ id. ground (arith, w.distinct id, w.fresh id);
  fresh = λ id k. ground (arith, k, w.fresh id (omega (arith, k)));
  apart = λ k. elim (Bool-cases (is_report s k f)) [
    | inl e ↦
        let none_yet : count_where (has_key k) t.rows ≡ 0 =
          subst (λ j. count_where (has_key j) t.rows ≡ 0) (report_key s k f e)
            (first-none-count (has_key (key_of s f)) t.rows h) in
        rw e (omega (arith, none_yet))
    | inr e ↦ rw e (w.apart k)
  ];
}
store_flow-IsTallied s f t (some x) h w = record {
  distinct = λ id.
      rw
        (count-update_same (λ r. r.id == id) (λ r. r.id == x.id) (counted s f x) t.rows (λ r. refl))
        (w.distinct id);
  fresh = λ id k.
      rw
        (count-update_same (λ r. r.id == id) (λ r. r.id == x.id) (counted s f x) t.rows (λ r. refl))
        (w.fresh id k);
  apart = λ k.
      rw (count-update_same (has_key k) (λ r. r.id == x.id) (counted s f x) t.rows (λ r. refl))
        (w.apart k);
}

-- If ids are distinct and below the next one and no key has two rows, the same is so after `processFlows`, and
-- the connections of every key have grown by the number of its reports.
pub process_flows-counted :
    (s : FlowScan) (fs : List FlowEntry) (t : Flows)
    → IsTallied t
    → IsTallied (process_flows s fs t)
      × ((k : FlowKey) → total k (process_flows s fs t).rows ≡ total k t.rows + reports s k fs)
unfolding process_flows process_flow reports
process_flows-counted s [] t w = (w, λ k. omega arith)
process_flows-counted s (f ∷ fs) t w =
    let o = first (has_key (key_of s f)) t.rows in
    let (kept, grown) =
      process_flows-counted s fs (process_flow s f t) (store_flow-IsTallied s f t o refl w) in
    (kept, λ k. omega (arith, grown k, store_flow-total s f t k o refl w))
