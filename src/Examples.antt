-- ===== src/Examples.antt =====
-- Concrete runs, and the theorems at concrete inputs.
mod Values
mod Queues
mod Connections
mod Limiters
mod Collectors
mod Tickers
mod Channels
mod Deliveries
mod Sockets
mod Clients
mod Servers
mod ServerTables
