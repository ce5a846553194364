-- ===== src/Lib.antt =====
-- Lumen: a VLESS relay with an admin panel and a Telegram shop, in Python.
--
-- The panel (main.py) keeps the configs, LINKS, and the subscription groups, SUBS. The shop
-- (telegram_bot.py) sells configs: it keeps users, orders and codes in STORE, and makes configs
-- through the panel. The relay (relay_vless.py) takes streams from WebSockets
-- (turbo_ws_protocol.py) or Raw TCP (raw_tcp.py), reads the VLESS header, asks the panel whether
-- the config may be used, and counts its bytes in batches (speed_limit.py). transports.py says
-- which ingress can run.
--
-- Prelude: texts, dictionaries in insertion order, lists and tests that all files share.
-- Store: the shop's records. Store.Pricing, Store.Codes, Store.Orders and Store.Finish have one
-- function for each locked section of telegram_bot.py (`_create_order`, `_apply_discount`,
-- `_start_card_payment`, `_finish_order`, `_redeem_gift` and the others), with the time and the
-- random tokens as arguments. Store.Session runs them as events: `_finish_order` has three
-- sections, between which any other event may come. Store.Admin is what an admin's dialogues write
-- at their ends. Store.Reservations, Store.Booking and
-- Store.Settlement have the proofs about discount codes; Store.Leaves carries them through the
-- branches of a handler; Store.Purse has those about wallets.
-- Store.Provision makes and renews services on the panel (`_ensure_customer_sub`, `_provision_new`,
-- `_provision_renew`); what the shop alone writes on a config stands in a dictionary beside the
-- panel's.
-- Panel: the records of configs and groups. Panel.Access is admission (`is_link_allowed`,
-- `is_ip_allowed`) and `check_and_use`; Panel.Links and Panel.Groups are the handlers, which give
-- the panel back beside their result, also when the state file could not be written. Panel.Patches is
-- `update_link`, with the writes that a refusal in the middle leaves. Panel.Sync, Panel.Assign,
-- Panel.Resync, Panel.Updates, Panel.Patches.Grouped and Panel.Edits are about the agreement of the
-- two sides.
-- Vless: the header parser (`_parse_vless_header`), the loop that collects it from messages
-- (`_collect_header`), the order and the schedule of a target's addresses, and the threshold of
-- the write buffer (`_AdaptiveFlow`).
-- Quota: `QuotaGate` of speed_limit.py, and in Quota.Exact a connection's books.
-- Buckets: the token buckets of speed_limit.py (`_Bucket`, `_get_bucket`, `prune_buckets`).
-- Turbo: the receive queue and the frame header of turbo_ws_protocol.py.
-- RawTcp: the map from TLS names to locations (`deployment`, `endpoint_for_location`,
-- `location_for_sni`).
-- Addresses: `normalize_address` and `normalize_sni` of config_address.py.
-- Transports: the registry of transports.py.
-- Ranking: the choice of a proxy (`preferred_proxy_id` of proxy_performance.py).
-- Countries: the codes, names and flags of countries.py, with its tables.
-- Repository: proxy_repository.py: `validate_url`, the lines of proxy.txt (`parse_text`, with the
-- texts of a line in Repository.Metadata), the lookup and the refresh; Repository.Catalogue is
-- about what a refresh publishes.
-- Exits: where a session leaves (main.py): receipts of proxy tests, `validate_multi_location` and
-- `resolve_exit_selection`. Exits.Exact is about what a session gets, Exits.Validated about what an
-- accepted request promises.
-- Outbound: the way to a target (outbound.py: `open_outbound`) and the health of proxies;
-- Outbound.Socks is the SOCKS5 handshake on all that a proxy sends, Outbound.Socks.Exchange and
-- Outbound.Socks.Target are about what is sent and read.
-- Sessions: `_run_vless_session` of relay_vless.py, as stretches between its waits, and any order of
-- the stretches of many sessions; it uses Panel.Access, Vless.Collect, Exits and Outbound.
-- Sessions.Moves says what a stretch can do; Sessions.Limit (with Sessions.Addresses),
-- Sessions.Tracked and Sessions.FailClosed (with Sessions.Chosen) follow it.
-- Signin: the sessions and the password of the panel's administrator (main.py), with Signin.Expelled
-- on those that a new password signs out.
-- Psiphon: psiphon/manager.py. Psiphon has its records, leases and published state;
-- Psiphon.Notices the Core's notices; Psiphon.Session one run of `_start_session`, as stretches
-- between its waits; Psiphon.Supervisor the monitor and `_supervise`. What a wait brings back (the
-- notices that came, the probe's result, the process's end, the time) is an argument, and a list of
-- such arguments is a run. Psiphon.Heard, Psiphon.Sound and Psiphon.Opening follow the stretches;
-- Psiphon.Gate is the contract of the manager with the VLESS endpoint, as a gate, and its children
-- prove it over any sequence of operations; Psiphon.Attempts is about how long the supervisor goes
-- on.
-- Tests: all of it on concrete inputs.
--
-- Times are natural numbers: microseconds in the shop and for drains, milliseconds for routes,
-- gates and buckets; an ISO timestamp is missing, unreadable or a moment. Amounts, sizes and
-- counters are natural numbers, as the source cuts them off at 0. Python's floats are a parameter
-- in averages and scores; in the token bucket, whose tokens, rate and monotonic seconds are floats
-- too, they are exact numbers of thousandths and of milliseconds. All recursion is structural, but for the
-- slices of `_Bucket.consume`, whose fuel is the number of tokens asked for, of which each slice
-- takes one at least. The token loop of `_new_order_id` is over a list of drawn tokens, and gives
-- no identifier when all of them are taken. The transport settings of a config, of which only an
-- empty object is accepted, have no field. Of code elsewhere: addresses, exit proxies, hashes and
-- Unicode tables are records of functions that the definitions take (`Services`, `Codec`, `Names`,
-- `Hostnames`, `Runtime`, `Config`, `Casing`, `Letters`, `Library`, `World`, `Hosts`).
--
-- A request of the sign-in, and `_start_session` as the gate sees it, is one step, although the
-- source waits inside. A session of the relay keeps the config as it was when the session came,
-- and the groups stay over a run of sessions. The exception's text that a failed order keeps
-- is an argument of `rollback_order`, and a constant in `finish_order`, which has no section of
-- another call in between.
--
-- Python's cancellation of a task is `stop`, which may come between any two operations.
--
-- Not modelled: HTTP routes and pages, Telegram's API, sockets and tasks, the state file, the
-- signed request and the probes of proxies, Psiphon's own config and health probe, the updater and
-- the installer.
pub mod Prelude
pub mod Store
pub mod Panel
pub mod Vless
pub mod Quota
pub mod Buckets
pub mod Turbo
pub mod RawTcp
pub mod Transports
pub mod Ranking
pub mod Addresses
pub mod Countries
pub mod Repository
pub mod Exits
pub mod Outbound
pub mod Sessions
pub mod Signin
pub mod Psiphon
pub mod Tests
