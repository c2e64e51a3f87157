-- ===== src/Federation/Handler/Incoming/Forwarded.antt =====
-- Which requests of an upstream reach a client.
