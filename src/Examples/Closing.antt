-- ===== src/Examples/Closing.antt =====
-- A pool shut down, over a queue that is a list.
