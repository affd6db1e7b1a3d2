-- ===== src/Notification/Send.antt =====
-- `sendForMonitor`, `sendForGroup` and `sendForSite`: resolution and dispatch together.
use oblimap.Base.{
  ℕ, ◌≡◌, ◌∙◌, ap, ◌&&◌, Option, none, some, List, ◌++◌, where_, fun_ext, String, ◌≢◌,
}
use oblimap.Group.{Hierarchy}
use oblimap.Notification.{
  Binding, resolve_channels_for_monitor, resolve_channels_for_group, resolve_channels_for_site,
}
use oblimap.Notification.Sources.{sources_for_monitor, sources_for_site}
use oblimap.Notification.Agreement.{active}
use oblimap.Notification.Views.{monitor-Agrees, site-Agrees}
use oblimap.Notification.Dispatch.{Channel, LogRow, send_to, logged, send_to-logged}

module _ (deliver : Channel → Option (Option String)) (table : List Binding) (h : Hierarchy)
    (channels : List Channel) where
  -- `sendForMonitor`
  unfoldable pub send_for_monitor : ℕ → Option ℕ → Option ℕ → List LogRow → List LogRow
  unfolding send_to resolve_channels_for_monitor
  send_for_monitor monitor_id group_id agent_device_id log =
      send_to deliver (some monitor_id) "status_change"
        (resolve_channels_for_monitor table h monitor_id group_id agent_device_id) channels log

  -- `sendForGroup`
  unfoldable pub send_for_group : ℕ → List LogRow → List LogRow
  unfolding send_to resolve_channels_for_group
  send_for_group group_id log =
      send_to deliver none "group_status_change" (resolve_channels_for_group table h group_id)
        channels log

  -- `sendForSite`
  unfoldable pub send_for_site : Option ℕ → Option ℕ → List LogRow → List LogRow
  unfolding send_to resolve_channels_for_site
  send_for_site site_group_id site_id log =
      send_to deliver none "ipam_event" (resolve_channels_for_site table h site_group_id site_id)
        channels log

  -- A notification for a monitor that no agent device backs is tried on exactly the enabled channels
  -- that the view with sources shows as not excluded, in the order of the table, and leaves one row in
  -- the log for each of them whose type has a plugin.
  pub send_for_monitor-shown :
      (print : ℕ → String) (m : ℕ) (g : Option ℕ) (log : List LogRow)
      → send_for_monitor m g none log
        ≡ log
          ++ logged deliver (some m) "status_change" (
              where_
                (λ ch. active ch.id (sources_for_monitor print table h m g).result && ch.is_enabled)
                channels)
  unfolding send_for_monitor
  send_for_monitor-shown print m g log =
      send_to-logged deliver (some m) "status_change"
        (resolve_channels_for_monitor table h m g none) channels log
      ∙ ap (λ test. log ++ logged deliver (some m) "status_change" (where_ test channels))
          (fun_ext λ ch. ap (λ b. b && ch.is_enabled) (monitor-Agrees print table h m g ch.id))

  -- A notification about a site is tried on exactly the enabled channels that the view of the site
  -- shows as not excluded, in the order of the table, and leaves one row in the log for each of
  -- them whose type has a plugin. Neither the id of the site nor that of its group is 0.
  pub send_for_site-shown :
      (print : ℕ → String) (s : ℕ) (g : Option ℕ) (log : List LogRow)
      → s ≢ 0
      → g ≢ some 0
      → send_for_site g (some s) log
        ≡ log
          ++ logged deliver none "ipam_event" (
              where_
                (λ ch. active ch.id (sources_for_site print table h s g).result && ch.is_enabled)
                channels)
  unfolding send_for_site
  send_for_site-shown print s g log nonzero real =
      send_to-logged deliver none "ipam_event" (resolve_channels_for_site table h g (some s))
        channels log
      ∙ ap (λ test. log ++ logged deliver none "ipam_event" (where_ test channels))
          (fun_ext
            λ ch. ap (λ b. b && ch.is_enabled) (site-Agrees print table h s g nonzero real ch.id))
