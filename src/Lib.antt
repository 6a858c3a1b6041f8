-- ===== src/Lib.antt =====
-- A model of the server that keeps the proxy configuration of a set of devices and renders it for
-- each device as a sing-box configuration.
--
-- The program. The storage (storage/) keeps devices, inbounds, WireGuard templates, subscriptions,
-- node groups, rule sets, cached and manual outbounds, and a table of global settings. The service
-- (service/) has the admin API, behind the guard of service/auth.go, and the generation of
-- a device's configuration, which reads the storage, refreshes the outbounds of subscriptions
-- and hands the rows to the renderers (convert/). A renderer picks the rows that the device sees,
-- groups the nodes by keyword (convert/common/group.go) and writes the parts of the result.
--
-- The model. Text is the list of its code points (Prelude/Texts): a Go string of valid UTF-8 is
-- such a list, and the comparisons, searches and trims of package strings (Strings) are those of
-- code points. An int is an integer of which the program takes the order and equality, so that
-- none of its arithmetic overflows but that of the cache duration and of a page of outbounds. A pointer that may be nil is an Option, a map an association list
-- (Prelude/Map) or a list of keys (Prelude/Keys). A method that changes state and may fail is an
-- action whose state survives its error (Prelude/Exec).
--
-- Entity and Entity/SingBox have the records of entity/, field by field.
--
-- Group models convert/common/group.go: splitKeywords, FilterOutboundGroupTags,
-- ParseDeviceTypeOverrides, normalizeGroupType and ResolveGroupType. Each loop is a function of its
-- own. Group/Members and Group/Overrides have the proofs.
--
-- Singbox/Outbounds models convert/singbox/outbound.go: constructOutboundGroup, GetOutbounds and
-- their helpers; Singbox/Outbounds/Closed has the proofs.
--
-- Visibility has the test of comma-separated device codes of service/outbound_cache.go and its copy
-- in convert/singbox/extra_outbound.go. Singbox/Templates models GetInbounds and GetExtraOutbounds,
-- Singbox/Endpoint convert/singbox/endpoint.go, Singbox/Defaults dns.go and experimental.go of that
-- folder, Singbox/Route route.go with BuildRuleSetURL of convert/ruleset, and Singbox/Route/Effective
-- has the proofs on the route. sort.Slice is a parameter (Prelude/Sort) of which the proofs use that
-- it permutes its list; json.Unmarshal and the escapes of net/url are parameters too, and
-- what the route takes of convert/ruleset is an interface.
--
-- Settings models service/system_host.go and the six handlers of service/service.go for the global
-- settings, each as an action on the table that service/auth.go uses, with url.Parse as
-- a parameter. Settings/Reserved and Settings/Stored have the proofs.
--
-- Cache models service/outbound_cache.go: Cache has needsRefresh and the counts of a refresh (proofs
-- in Cache/Counts), Cache/Store the tables with the calls of storage/database.go that a refresh
-- makes, and Cache/Refresh the parsing of a subscription and its refresh; Cache/Replaced and
-- Cache/Success have the proofs. The storage says of each coming call whether it fails. The HTTP
-- client, base64, JSON and the decoders of protocol/ are parameters. A cache duration is multiplied
-- in 64 bits; the theorem on it has the bound under which the product does not wrap.
--
-- Cache/Offered has the rest of that file, the loop over the subscriptions before a generation and
-- the choice of the rows for a device; Cache/Shown and Cache/Calm have the proofs.
--
-- Inventory models the tables that an administrator keeps and the admin API over them: devices,
-- inbounds, their bindings, WireGuard templates and peers, node groups and rule sets.
-- Inventory/Table is one table, Inventory/Store the state and its calls, Inventory/Methods the
-- methods of storage/database.go, Inventory/Handlers the handlers of service/device_management.go
-- and service/service.go, Inventory/Requests their routes in cmd/server/main.go. GORM is modelled as
-- far as the methods use it: a struct Create replaces a false Enabled by the default of the column,
-- a struct Updates leaves out zero values, a transaction is kept or undone as a whole. Requests are
-- served one after the other; the
-- import of service/config_transfer.go writes to the same tables and is not among them. Inventory/Links says what it means that no reference dangles;
-- Inventory/Linked and Inventory/Served have the proofs.
--
-- Generated models service/generated.go on the settings, the cache and the tables together
-- (Generated/Server), with the default rows of convert/singbox/device_management_defaults.go
-- (Singbox/DefaultTables). Generated/Configured, Generated/Refused and Generated/Total have the
-- proofs, and Generated/Admitted those on the device of a request. What is the same in all handlers
-- for a device, its search and the tests of its state and token, is one definition.
--
-- Rules models convert/ruleset/ruleset.go over parameters for encoding/json and net, and fills the
-- interface of Singbox/Route; Rules/Endpoint models service/rules_open.go. Rules/Counted and
-- Rules/Fetched have the proofs, and Rules/Marshalled what they take of json.Marshal: it writes what
-- json.Unmarshal has read.
--
-- OutboundApi models service/outbound_api.go and the handlers of subscriptions of service/service.go
-- on the tables of Cache/Store: the pages of a list are in OutboundApi, their proof in
-- OutboundApi/Pages, the storage methods in OutboundApi/Rows and the handlers in
-- OutboundApi/Handlers. OutboundApi/Replaced and OutboundApi/Manual have the proof on
-- updates. Products and sums of a page are those of 64 bits, and a slice out of range
-- is a panic.
--
-- Auth models service/auth.go. Auth/World is the state: the global settings, the cache of the
-- loaded configuration, the clock, and what the coming storage calls and reads of random bytes
-- will do. Auth/Config has the external code (bcrypt, HMAC-SHA256, base64, JSON and the RFC3339
-- layout) as a record of functions, with the constants and small helpers. Auth/Token issues and
-- validates tokens, Auth/Service loads and saves the configuration (readAuthSetting,
-- saveAuthConfig, getAuthConfig), Auth/Methods has getAuthConfig with its cache, InitializeAuth,
-- ResetPassword, LoginWithPassword, ChangeCredentials and AuthMiddleware. The cache pointer of the
-- service is never nil, as NewService sets it, and its lock is not modelled: each method of the
-- cache is one step. What the proofs take of the external code are the records TokenLaws, TimeLaws
-- and HashLaws: decoding inverts encoding, the base64 alphabet has no dot, RFC3339 keeps the
-- seconds of a time before the year 10000, and bcrypt accepts a password for its own hash.
-- Auth/Toy is an instance that meets them.
--
-- No loop needs fuel: every loop of the modelled code runs over a list.
--
-- Not modelled: the HTTP layer (gin) and the JSON of requests and answers; the SQL and REST of the
-- storage backends; the handlers of extra outbounds, which no route calls; the Surge and Shadowrocket
-- renderers and their handlers; the decoders of node links in protocol/; import and export; the web
-- client; main.go but for its routes.
pub mod Prelude
pub mod Strings
pub mod Entity
pub mod Group
pub mod Visibility
pub mod Singbox
pub mod Cache
pub mod Auth
pub mod Settings
pub mod Inventory
pub mod Rules
pub mod Generated
pub mod OutboundApi
