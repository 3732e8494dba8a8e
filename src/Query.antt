-- ===== src/Query.antt =====
-- The read side of the daemon: src/graphify_daemon/graph_query_api.
pub mod Cache
pub mod Budget
pub mod Tools
pub mod Transport
