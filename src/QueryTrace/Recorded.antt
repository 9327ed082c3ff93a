-- ===== src/QueryTrace/Recorded.antt =====
-- What `node_responded_with` records.
use trin.QueryTrace.{QueryTrace}
