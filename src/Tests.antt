-- ===== src/Tests.antt =====
-- Runs on concrete inputs: the shop (telegram_bot.py), the panel (main.py) and the relay.
pub mod Shop
pub mod Panels
pub mod Relays
pub mod Ingress
pub mod Proxies
pub mod Sessions
pub mod Patches
pub mod Running
pub mod Socks
pub mod Provision
pub mod Signin
pub mod Exits
