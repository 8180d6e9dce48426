-- ===== src/Lib.antt =====
-- The web client of 智御 (apps/web), as far as it decides things: its trees with check boxes and a
-- keyword, the select that picks from one, the session and its permission codes, the routes and
-- their guards, and the request client with its retry, the connection that is kept open for
-- messages, and what the messages do to the store of live states and to the cached answers, pages
-- of lists, toasts, the forms of bookings, of requests for approval, of pricing rules, of vehicles
-- and of users, the accounts that money moves between and the settlements that are printed, the
-- costs and events of trips, and the lines of a map with the playback of a track.
--
-- Common holds what the other modules share: Boolean tests, lists and sets of texts, the methods of
-- JavaScript's strings, JSON values, and the numbers of the language as a parameter
-- (Common/Number). A `Set<string>` is a list without repetitions, in the order of insertion
-- (Common/StringSet).
--
-- - Tree: apps/web/src/components/ui/tree-utils.ts, one function per function. Tree/Order:
--   depth-first order; Tree/Filter: what a filtered tree keeps.
-- - CheckTree: the state of apps/web/src/components/ui/CheckTree.tsx; CheckTree/Laws.
-- - Session: apps/web/src/store/auth.ts; Session/Permission: apps/web/src/auth/permission.ts and
--   hooks/usePermission.ts; Session/Laws: histories of the store.
-- - Router: apps/web/src/router (routes.tsx, guards.tsx, index.tsx); Router/Laws.
-- - Client: the interceptors of apps/web/src/api/client.ts; Client/Laws: their headers;
--   Client/Requests: a request with its retry, over a server that is a parameter, with
--   Client/Requests/Finish and Client/Requests/Retry; Client/Flight: many callers who share one
--   refresh; Client/Download: the names of downloads, compactParams and errorMessage, with
--   Client/Download/Laws.
-- - Socket: the effect of useWebSocket in apps/web/src/hooks/useWebSocket.ts, its variables as a
--   record and the browser's timers and sockets as events; Socket/Laws; Socket/Url: buildWsUrl.
-- - Realtime: apps/web/src/store/realtime.ts; Realtime/Laws: the merge of a patch;
--   Realtime/Events: applyVehicleStatus and handleEvent of useWebSocket.ts, with
--   Realtime/Events/Coherence (store and caches) and Realtime/Events/Unread (the count of
--   notifications).
-- - Pagination: apps/web/src/components/ui/Pagination.tsx, with Pagination/Laws (the page numbers)
--   and Pagination/Rows (the rows of a page).
-- - Toast: the state of apps/web/src/components/ui/Toast.tsx; Toast/Laws.
-- - TreeSelect: apps/web/src/components/ui/Tree.tsx and TreeSelect.tsx, clicks and renders as
--   events; TreeSelect/Laws.
-- - Viewport: the view of apps/web/src/components/map/SchematicMap.tsx, the pointer, the wheel and
--   the timeouts as events; Viewport/Grid: its grid, scale and first bounds; Viewport/Laws
--   (gestures) and Viewport/Zoom.
-- - DeptTree and PermissionTree: apps/web/src/hooks/useDeptTree.ts and usePermissionTree.tsx,
--   which turn what the interface sends into the nodes of Tree.
-- - Format: the dates, times, texts, money and decimals of apps/web/src/utils/format.ts, over the
--   date library (Common/Dayjs).
-- - Forms: what the forms share, keys of an update that are sent where they changed, and numbers
--   from inputs; Forms/Laws.
-- - Sets: apps/web/src/utils/array.ts and sameIdSet of apps/web/src/pages/system/users/schemas.ts;
--   Sets/Laws.
-- - Vehicles: apps/web/src/pages/assets/vehicles (schemas.ts, VehicleDrawer.tsx), the checks, the
--   form and the update; Vehicles/Vin: VIN_RULE; Vehicles/Save: what is sent; Vehicles/Laws.
-- - Users: apps/web/src/pages/system/users (schemas.ts, UserDrawer.tsx); Users/Save: the requests
--   of a save, the server as a function of the requests so far; Users/Laws.
-- - Accounts: apps/web/src/pages/billing/accounts (utils.ts, AccountModals.tsx) with childLevel,
--   refLink and budgetUsage of ../style.ts; Accounts/Rows: the rows of AccountTree.tsx;
--   Accounts/Laws: allocations; Accounts/Edits: the other forms of AccountModals.tsx.
-- - Settlements: apps/web/src/pages/billing/settlements/print.ts, its groups and its escape;
--   Settlements/Groups: what the groups hold; Settlements/Print and Settlements/Style: the page;
--   Settlements/Laws: its tags.
-- - Booking: apps/web/src/pages/booking/schemas.ts, the form of a booking and the bodies it sends;
--   Booking/Laws; Booking/Valid: the checks of the form, with Booking/Valid/Laws.
-- - Billing: apps/web/src/pages/billing/rules/schemas.ts; Billing/Range: splitRange and the text
--   of a time; Billing/Form: docToForm and formToDoc, with Billing/Form/RoundTrip and
--   Billing/Form/Fields; Billing/Valid: ruleFormSchema, with Billing/Valid/Laws; Billing/Simulate:
--   the simulated trip.
-- - Geo: apps/web/src/utils/geo.ts, over numbers and their mathematics (MathOf); Geo/Simplify:
--   simplifyIndices, its stack as a list, with Geo/Simplify/Flat (one span) and
--   Geo/Simplify/Result (the whole line).
-- - Track: prepare, indexAt and the playback of apps/web/src/components/map/TrackPlayer.tsx,
--   frames and clicks as events; Track/Search and Track/Play.
-- - Trips: the sentences for events and the step of a track, apps/web/src/pages/trips/style.ts,
--   with Trips/Laws; Trips/Cost: costDetail.ts beside it, with Trips/Cost/Laws.
-- - Approval: apps/web/src/pages/approval/schemas.ts and, of style.ts beside it, whom a request
--   waits for; Approval/Laws.
-- - Charging: the functions of apps/web/src/pages/charging/style.ts; Charging/Actions: of
--   ChargingModals.tsx beside it, the start from afar and the review.
-- - Tests: small runs, and each theorem of the list below at a concrete input.
--
-- A request can start others (the refresh, and itself once more), so client_request recurs on
-- fuel. Fuel two is enough: the refresh and the request sent again are never retried.
--
-- The stack of simplifyIndices is worked off with fuel of two rounds a point: a round removes a
-- span or splits it at a point within, which no other round splits again. The binary search of
-- indexAt has as many steps as there are times, and every step shortens its range. The loops of
-- the map's grid have fuel 41, where the source leaves them. Times are whole milliseconds from
-- some origin, and a frame says how much time has passed; a history of the playback is one of a
-- single track, whose points stay the same. The random factor of the delays of Socket is given in
-- whole thousandths.
--
-- Not modelled: what components look like, the libraries (axios, zustand, react-query,
-- react-router, dayjs, zod), the Go backend, which the client sees through the server parameter,
-- and the methods of texts on other than code points (`toLowerCase` and `encodeURIComponent` are
-- parameters).
mod Common
mod Tests
pub mod Tree
pub mod CheckTree
pub mod Session
pub mod Router
pub mod Client
pub mod Socket
pub mod Realtime
pub mod Pagination
pub mod Toast
pub mod TreeSelect
pub mod Viewport
pub mod DeptTree
pub mod PermissionTree
pub mod Format
pub mod Forms
pub mod Sets
pub mod Booking
pub mod Billing
pub mod Vehicles
pub mod Users
pub mod Accounts
pub mod Settlements
pub mod Geo
pub mod Track
pub mod Trips
pub mod Approval
pub mod Charging
