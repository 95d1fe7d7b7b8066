-- ===== src/Net/Socket.antt =====
-- net/socket_utils.cpp: WriteFull and ReadFull. What the operating system answers to the calls on a
-- socket is an argument: a list with one outcome per call. When the list is used up, the calls that
-- follow move all that they are asked to.
pub mod Laws
use neural_kv.Prelude.{
  ℕ, zero, suc, ◌-◌, ◌+◌, min, String, List, [], ◌∷◌, ◌++◌, Option, none, some, length, take, drop,
  ltb, ◌==◌, if◌then◌else◌,
}
use neural_kv.Status.{Status, ErrorCode, okay, error}

-- A call of write or read: it moves at most the bytes that were offered, or is interrupted by a signal
-- (EINTR), or fails with errno's text.
pub data Transfer : Type 0 where
  moved : ℕ → Transfer
  interrupted : Transfer
  failed : String → Transfer

-- A socket as its writer sees it: the bytes that the operating system has taken, and what it will
-- answer.
pub record Socket : Type 0 where
  pub sent : List ℕ
  pub writes : List Transfer

-- The loop of WriteFull on the bytes from `buf + total` on.
unfoldable pub write_loop : List Transfer → List ℕ → List ℕ → Status × Socket
write_loop writes sent [] = (okay, record { sent = sent; writes = writes })
write_loop [] sent (b ∷ bs) = (okay, record { sent = sent ++ (b ∷ bs); writes = [] })
write_loop (moved n ∷ writes) sent (b ∷ bs) =
    write_loop writes (sent ++ take n (b ∷ bs)) (drop n (b ∷ bs))
write_loop (interrupted ∷ writes) sent (b ∷ bs) = write_loop writes sent (b ∷ bs)
write_loop (failed why ∷ writes) sent (b ∷ bs) =
    (error ErrorCode.io_error why, record { sent = sent; writes = writes })

abbrev pub write_full : List ℕ → Socket → Status × Socket
write_full buf socket = write_loop socket.writes socket.sent buf

-- The loop of ReadFull when `wanted` bytes are still missing: `incoming` is what the peer has written
-- before it closes its end and nobody has read, and `buf` what this call has read so far. A read that
-- moves no byte is the end of the stream.
unfoldable pub read_loop : List Transfer → List ℕ → ℕ → List ℕ → Status × List ℕ × List ℕ
read_loop reads buf zero incoming = (okay, buf, incoming)
read_loop reads buf (suc wanted) [] = (error ErrorCode.io_error "connection closed", buf, [])
read_loop [] buf (suc wanted) (b ∷ bs) =
    if ltb (length (b ∷ bs)) (suc wanted)
    then (error ErrorCode.io_error "connection closed", buf ++ (b ∷ bs), [])
    else (okay, buf ++ take (suc wanted) (b ∷ bs), drop (suc wanted) (b ∷ bs))
read_loop (moved zero ∷ reads) buf (suc wanted) (b ∷ bs) =
    (error ErrorCode.io_error "connection closed", buf, b ∷ bs)
read_loop (moved (suc n) ∷ reads) buf (suc wanted) (b ∷ bs) =
    let got = take (min (suc n) (suc wanted)) (b ∷ bs) in
    read_loop reads (buf ++ got) (suc wanted - length got) (drop (length got) (b ∷ bs))
read_loop (interrupted ∷ reads) buf (suc wanted) (b ∷ bs) =
    read_loop reads buf (suc wanted) (b ∷ bs)
read_loop (failed why ∷ reads) buf (suc wanted) (b ∷ bs) =
    (error ErrorCode.io_error why, buf, b ∷ bs)

abbrev pub read_full : List Transfer → ℕ → List ℕ → Status × List ℕ × List ℕ
read_full reads len incoming = read_loop reads [] len incoming
