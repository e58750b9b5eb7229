-- ===== src/Exec/Buffers.antt =====
-- internal/exec/kubeexec.go: the buffers that bound what is kept of a stream. A Write takes all of
-- its bytes and never fails.
pub mod Laws
use cloud_agent_sandbox.Base.{
  ℕ, ◌-◌, Bool, true, false, ◌||◌, [], ◌++◌, Text, ltb, leb, length, take, drop, if◌then◌else◌,
}

pub record CapBuffer : Type 0 where
  pub buf : Text
  pub limit : ℕ
  pub truncated : Bool

unfoldable pub new_cap_buffer : ℕ → CapBuffer
new_cap_buffer limit = record { buf = []; limit = limit; truncated = false }

-- capBuffer.Write; a limit is not negative.
unfoldable pub cap_write : Text → CapBuffer → CapBuffer
cap_write p b =
    if leb b.limit 0
    then record b { truncated = b.truncated || ltb 0 (length p) }
    else let remaining = b.limit - length b.buf in
      if ltb 0 remaining
      then (if leb (length p) remaining
          then record b { buf = b.buf ++ p }
          else record b { buf = b.buf ++ take remaining p; truncated = true })
      else if ltb 0 (length p)
      then record b { truncated = true }
      else b

pub record TailBuffer : Type 0 where
  pub buf : Text
  pub limit : ℕ
  pub truncated : Bool

unfoldable pub new_tail_buffer : ℕ → TailBuffer
new_tail_buffer limit = record { buf = []; limit = limit; truncated = false }

-- tailBuffer.Write
unfoldable pub tail_write : Text → TailBuffer → TailBuffer
tail_write p b =
    if leb b.limit 0
    then record b { truncated = b.truncated || ltb 0 (length p) }
    else let all = b.buf ++ p in
      if ltb b.limit (length all)
      then record b { buf = drop (length all - b.limit) all; truncated = true }
      else record b { buf = all }
