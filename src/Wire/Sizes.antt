-- ===== src/Wire/Sizes.antt =====
-- The constants of src/wire.rs and src/outbox.rs.
use strong_ipc.Prelude.{ℕ}

abbrev pub max_fds : ℕ
max_fds = 253

abbrev pub expected_fds : ℕ
expected_fds = 8

abbrev pub max_message_size : ℕ
max_message_size = 8192

-- `DEPTH` of src/outbox.rs
abbrev pub depth : ℕ
depth = 8
