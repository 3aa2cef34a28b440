-- ===== src/Examples/Ordering/Tail/Torn.antt =====
-- The verdict of `main` in examples/ordering.rs where it loads the counters while a call of the handler is
-- under way on another thread: `received` is counted first, then the descriptors, then come the checks.
