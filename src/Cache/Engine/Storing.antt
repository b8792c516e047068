-- ===== src/Cache/Engine/Storing.antt =====
-- Set and get through the engine: what `item_allocate` and `store_info` leave is found by
-- `get_info`.
