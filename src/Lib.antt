-- ===== src/Lib.antt =====
-- A model of the server of Oblimap and the theorems about it.
--
-- Oblimap is an address management and monitoring server. Monitors, sites and probes stand in a tree
-- of groups; settings, notification channels and permissions are inherited along that tree. Each
-- service works on tables of a PostgreSQL database through queries; here a table is the list of its
-- rows, a query is a function of that list, and an operation is a function from the tables to its
-- result and the tables after it. Where the database refuses a write (a foreign key), the model says
-- so as a result of its own.
--
-- The parts, with the files of the repository that they are translated from:
-- - Group: server/src/services/group.service.ts, the tables `monitor_groups` and `group_closure`. `create`,
--   `move`, `delete` and `get_descendant_ids` are the methods of `groupService`; Group/Queries has
--   `getAncestors`, `findGroupNotificationAncestor` and the ancestor query that other services repeat; Group/Slug has
--   `slugify`, `ensureUniqueSlug`, `update` and `reorder`.
--   Group/Ancestry and Group/Closure describe the tree by chains of `parent_id`, independently of the
--   closure table.
-- - Settings: server/src/services/settings.service.ts and shared/src/settingsDefaults.ts. Settings/Resolve has
--   the five resolutions, Settings/Chain the chain of levels that they are compared with, Settings/Nearest the inheritance in
--   terms of the closure table.
-- - Site: the rows of `sites` that several services read.
-- - Notification: server/src/services/notification.service.ts. The resolutions of channels, the views with
--   sources (Notification/Sources), the dispatch loop (Notification/Dispatch) and the calls that put
--   them together (Notification/Send, Notification/Agent); Notification/Agent/Nearest has the types of a device in
--   terms of the closure table, Notification/Agent/Due when a notification of a device is sent.
-- - GroupNotification: server/src/services/groupNotification.service.ts, the map `groupStates`.
-- - Permission: server/src/services/permission.service.ts. Permission/Lists has the lists of ids and the
--   object of permissions, Permission/Grants what a team permission grants.
-- - Tunnel: server/src/services/tunnel.service.ts. `openTunnel` is `start_tunnel`, up to the insert, and
--   `settle_tunnel`, from the probe's answer on; the registry of connected probes stands for `byProbeId` of
--   server/src/services/probeHub.service.ts. Tunnel/Limits is about the limits, Tunnel/Choice about `selectProbe`.
-- - Hub: server/src/services/probeHub.service.ts, the sockets of probes and the promises of tunnels that wait for
--   their probe. Hub/Settled is about the promises, Hub/Registered about the sockets; a run is a list of events in
--   the order of the event loop.
-- - Probe: server/src/services/probe.service.ts, the tables `probes` and `probe_api_keys`. Probe/Push is `handlePush`,
--   Probe/Messages `handleProbeMessage`, Probe/Commands `sendCommand` and `bulkCommand`, Probe/Dedup `shouldDedup`, Probe/Mac `normalizeMac`.
-- - Item: `processDevices` of the same file, the devices of a site. Item/Process is the loop and the offline pass,
--   Item/Vendor the vendor and the type of a device, Item/Instability `checkIpInstability`.
-- - Flow: server/src/services/flow.service.ts, the table `network_flows`.
-- - Ipam: server/src/services/site.service.ts, the tables `sites`, `site_items` and `ip_reservations`. Ipam/Marks has the
--   marks that `getItems` and `getReservations` add.
-- - LiveAlert: server/src/services/liveAlert.service.ts, the table `live_alerts`.
-- - Base: Boolean tests, queries on tables, JavaScript sets, maps and texts.
--
-- Settings, notifications and grouped notifications read the tables of Group; permissions read its
-- closure table. A push runs `processDevices` and `processFlows`; commands go over the sockets of Hub.
--
-- The calls of an operation are taken one after the other, except that a tunnel waits for its probe
-- between `start_tunnel` and `settle_tunnel`.
--
-- Numbers are ids, depths, times and counts, which the program never lets overflow; ids are taken as natural
-- numbers. A loop over a list is structural recursion; the loop of `ensureUniqueSlug` has fuel for one round for
-- each group and one more, which is always enough. `orderBy` keeps rows with the same key in their order; SQL leaves that order open.
--
-- Parameters: what the settings use of JavaScript values and JSON (the record `Json`), the delivery of
-- a message by a plugin (`deliver`), the conversion of a number to text (`print`), and of a socket of the library
-- `ws` whether its `readyState` is OPEN (`open_ws`) and whether its `send` returns without an exception (`sends`).
--
-- Upper and lower case are those of ASCII. Texts that the code takes apart are lists of code units.
--
-- Not modelled: time stamps, descriptions and other columns that no modelled operation reads;
-- the tree and the agent configuration of `groupService`; the management of channels; the configuration that
-- a push is answered with, and failures of the database in `processDevices`; users, teams and tenants;
-- authentication, mail servers and the configuration of the application; the HTTP layer, the plugins,
-- the web client, and the programs in Go.
pub mod Base
pub mod Group
pub mod Settings
pub mod Site
pub mod Notification
pub mod GroupNotification
pub mod Permission
pub mod Tunnel
pub mod LiveAlert
pub mod Hub
pub mod Item
pub mod Flow
pub mod Ipam
pub mod Probe
