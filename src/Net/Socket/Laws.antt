-- ===== src/Net/Socket/Laws.antt =====
-- What WriteFull and ReadFull move, whatever the calls answer.
use neural_kv.Prelude.{
  ℕ, zero, suc, ◌-◌, ◌≡◌, ◌<◌, ◌⊎◌, inl, inr, refl, sym, ap, ◌∙◌, min, List, [], ◌∷◌, ◌++◌, length,
  take, drop, arith, append-nil, append_assoc, take-append-drop, length-append, length-take, ltb,
  Bool-cases,
}
use neural_kv.Status.{Status, ErrorCode, okay}
use neural_kv.Net.Socket.{
  Transfer, moved, interrupted, failed, Socket, write_loop, write_full, read_loop, read_full,
}

-- `k` bytes of `total` were moved: all of them with Ok, or too few with an I/O error.
abbrev pub Moves : Status → ℕ → ℕ → Type 0
Moves status k total =
    ((status ≡ okay) × (k ≡ total)) ⊎ ((status.code ≡ ErrorCode.io_error) × (k < total))

write_loop_lem :
    (writes : List Transfer) (sent buf : List ℕ)
    → let (status, socket) = write_loop writes sent buf in
      (taken : List ℕ) × (left : List ℕ) × (buf ≡ taken ++ left)
      × (socket.sent ≡ sent ++ taken)
      × Moves status (length taken) (length buf)
unfolding write_loop
write_loop_lem writes sent [] = ([], [], refl, sym (append-nil sent), inl (refl, refl))
write_loop_lem [] sent (b ∷ bs) = (b ∷ bs, [], sym (append-nil (b ∷ bs)), refl, inl (refl, refl))
write_loop_lem (moved n ∷ writes) sent (b ∷ bs) =
    let (taken, left, cut, out, how) =
      write_loop_lem writes (sent ++ take n (b ∷ bs)) (drop n (b ∷ bs)) in
    let first = take n (b ∷ bs) in
    let whole = take-append-drop n (b ∷ bs) in
    (
      first ++ taken,
      left,
      ground (arith, whole, cut, append_assoc first taken left),
      ground (arith, out, append_assoc sent first taken),
      ground (arith, how, length-append first taken, length-append first (drop n (b ∷ bs)), whole),
    )
write_loop_lem (interrupted ∷ writes) sent (b ∷ bs) = write_loop_lem writes sent (b ∷ bs)
write_loop_lem (failed why ∷ writes) sent (b ∷ bs) =
    ([], b ∷ bs, refl, sym (append-nil sent), inr (refl, omega arith))

-- WriteFull hands over a prefix of the buffer, in order, behind what was sent before: the whole
-- buffer when it returns Ok, and less than the buffer when it returns an error, which is an I/O error.
pub write_full_lem :
    (buf : List ℕ) (socket : Socket)
    → let (status, after) = write_full buf socket in
      (taken : List ℕ) × (left : List ℕ) × (buf ≡ taken ++ left)
      × (after.sent ≡ socket.sent ++ taken)
      × Moves status (length taken) (length buf)
write_full_lem buf socket = write_loop_lem socket.writes socket.sent buf

cut_take : (k : ℕ) (xs : List ℕ) → take k xs ++ drop (length (take k xs)) xs ≡ xs
cut_take zero xs = refl
cut_take (suc k) [] = refl
cut_take (suc k) (x ∷ xs) = ap (λ r. x ∷ r) (cut_take k xs)

read_loop_lem :
    (reads : List Transfer) (buf : List ℕ) (wanted : ℕ) (incoming : List ℕ)
    → let (status, buf', left) = read_loop reads buf wanted incoming in
      (got : List ℕ) × (incoming ≡ got ++ left)
      × (buf' ≡ buf ++ got)
      × Moves status (length got) wanted
unfolding read_loop
read_loop_lem reads buf zero incoming = ([], refl, sym (append-nil buf), inl (refl, refl))
read_loop_lem reads buf (suc wanted) [] = ([], refl, sym (append-nil buf), inr (refl, omega arith))
read_loop_lem [] buf (suc wanted) (b ∷ bs) =
    elim (Bool-cases (ltb (length (b ∷ bs)) (suc wanted))) [
      | inl short ↦ (
        b ∷ bs,
        ground (arith, append-nil (b ∷ bs), short),
        ground (arith, short),
        inr (ground (arith, short)),
      )
      | inr there ↦ (
        take (suc wanted) (b ∷ bs),
        ground (arith, take-append-drop (suc wanted) (b ∷ bs), there),
        ground (arith, there),
        inl (ground (arith, there), ground (arith, length-take (suc wanted) (b ∷ bs), there)),
      )
    ]
read_loop_lem (moved zero ∷ reads) buf (suc wanted) (b ∷ bs) =
    ([], refl, sym (append-nil buf), inr (refl, omega arith))
read_loop_lem (moved (suc n) ∷ reads) buf (suc wanted) (b ∷ bs) =
    let k = min (suc n) (suc wanted) in
    let first = take k (b ∷ bs) in
    let (got, cut, out, how) =
      read_loop_lem reads (buf ++ first) (suc wanted - length first)
        (drop (length first) (b ∷ bs)) in
    (
      first ++ got,
      sym (cut_take k (b ∷ bs)) ∙ ap (λ r. first ++ r) cut ∙ sym (append_assoc first got _),
      out ∙ append_assoc buf first got,
      ground (arith, how, length-append first got, length-take k (b ∷ bs)),
    )
read_loop_lem (interrupted ∷ reads) buf (suc wanted) (b ∷ bs) =
    read_loop_lem reads buf (suc wanted) (b ∷ bs)
read_loop_lem (failed why ∷ reads) buf (suc wanted) (b ∷ bs) =
    ([], refl, sym (append-nil buf), inr (refl, omega arith))

same_cut : (xs got left : List ℕ) → xs ≡ got ++ left → length got ≡ length xs → got ≡ xs
same_cut xs got [] cut n = sym (append-nil got) ∙ sym cut
same_cut xs got (b ∷ bs) cut n = absurd (ground (arith, cut, length-append got (b ∷ bs)))

pub write_full_ok :
    (buf : List ℕ) (socket : Socket)
    → (write_full buf socket).0 ≡ okay
    → (write_full buf socket).1.sent ≡ socket.sent ++ buf
write_full_ok buf socket fine =
    let (taken, rest, cut, out, how) = write_full_lem buf socket in
    out ∙ ap (λ r. socket.sent ++ r) (same_cut buf taken rest cut (ground (arith, how, fine)))

no_rest : (got left : List ℕ) → got ++ left ≡ got → left ≡ []
no_rest got [] e = refl
no_rest got (b ∷ bs) e = absurd (ground (arith, ap (λ xs. length xs) e, length-append got (b ∷ bs)))

-- What WriteFull sends with Ok on a socket where nothing else was sent, ReadFull of as many bytes
-- at the other end returns, or it returns an I/O error with a proper prefix of it.
pub write_full-read_full :
    (buf : List ℕ) (writes reads : List Transfer)
    → let (written, socket) = write_full buf (record { sent = []; writes = writes }) in
      let (read, got, left) = read_full reads (length buf) socket.sent in
      written ≡ okay
      → ((read ≡ okay) × (got ≡ buf) × (left ≡ []))
        ⊎ ((read.code ≡ ErrorCode.io_error) × (length got < length buf) × (got ++ left ≡ buf))
write_full-read_full buf writes reads fine =
    let (taken, rest, cut, out, how) = write_full_lem buf (record { sent = []; writes = writes }) in
    let (got, cut', out', how') =
      read_loop_lem reads [] (length buf) (write_loop writes [] buf).1.sent in
    let whole = out ∙ same_cut buf taken rest cut (ground (arith, how, fine)) in
    elim how' [
      | inl (good, n) ↦
          let same = same_cut buf got _ (sym whole ∙ cut') n in
          inl (good, out' ∙ same, no_rest got _ (sym cut' ∙ whole ∙ sym same))
      | inr (bad, n) ↦ inr (bad, ground (arith, out', n), ground (arith, out', cut', whole))
    ]
