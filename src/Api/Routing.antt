-- ===== src/Api/Routing.antt =====
-- Which request reaches which handler: the table of internal/api/server.go by what its patterns mean,
-- in whatever order they stand.
