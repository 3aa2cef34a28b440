-- ===== src/Error/Laws.antt =====
-- Conversions between the error types keep the message, its class and its text.
use strong_ipc.Prelude.{◌≡◌, refl, false, some}
use strong_ipc.Io.{IoError}
use strong_ipc.Error.{
  NodeError, SendError, io, io_kind, from_io, into_io, source, into_message, try_into_message,
  is_full, widen, debug_send_error, debug_try_send_error, display_send_error,
  display_try_send_error,
}

-- Widening a `SendError` to a `TrySendError` keeps the message, its debug text and its display text,
-- and never makes backpressure of it.
pub widen_lem :
    (e : SendError)
    → (try_into_message (widen e) ≡ into_message e)
      × (is_full (widen e) ≡ false)
      × (debug_try_send_error (widen e) ≡ debug_send_error e)
      × (display_try_send_error (widen e) ≡ display_send_error e)
unfolding try_into_message widen into_message is_full debug_try_send_error debug_send_error
    display_try_send_error display_send_error
widen_lem (SendError.too_large m) = (refl, refl, refl, refl)
widen_lem (SendError.closed m) = (refl, refl, refl, refl)

-- An `io::Error` survives the way into a `NodeError` and back, both ways round, and `io_kind` and
-- `source` report that error and its kind.
pub into_io-from_io :
    (e : IoError) (n : NodeError)
    → (into_io (from_io e) ≡ e)
      × (from_io (into_io n) ≡ n)
      × (io_kind n ≡ some (into_io n).kind)
      × (source n ≡ some (into_io n))
unfolding into_io from_io io_kind source
into_io-from_io e (io x) = (refl, refl, refl, refl)
