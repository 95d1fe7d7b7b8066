-- ===== src/Persistence/Replay/Scan.antt =====
-- The scan of a log ends, and on a log that a crash has cut it sees the records that are whole.
use neural_kv.Prelude.{
  ℕ, zero, suc, ◌≤◌, ◌<◌, ◌≡◌, refl, List, [], ◌∷◌, ◌++◌, none, some, arith, length, All, foldl,
  drop, length-drop, append_assoc, take, length-take,
}
use neural_kv.Bytes.{read_u32_be}
use neural_kv.Status.{Status, okay}
use neural_kv.Result.{ok, err}
use neural_kv.Persistence.WalRecord.{
  WalRecord, encode_wal_record, check_record, read_value, read_key, read_next_wal_record,
  IsValidRecord, ReadRecord,
}
use neural_kv.Persistence.WalRecord.RoundTrip.{read_next_wal_record-encode}
use neural_kv.Persistence.WalRecord.Torn.{IsTorn, read_next_wal_record_torn}
use neural_kv.Persistence.Replay.{scan_wal, scan_file, encode_all}

check_record_keeps :
    (header key value_len_buf value fd : List ℕ) (r : WalRecord) (rest : List ℕ)
    → check_record header key value_len_buf value fd ≡ ok (some (r, rest))
    → rest ≡ fd
unfolding check_record
check_record_keeps header key value_len_buf value fd r rest h = ground arith

read_value_takes :
    (header key fd : List ℕ) (r : WalRecord) (rest : List ℕ)
    → read_value header key fd ≡ ok (some (r, rest))
    → length rest ≤ length fd
unfolding read_value
read_value_takes header key fd r rest h =
    let n = read_u32_be (take 4 fd) in
    ground (
      arith,
      check_record_keeps header key (take 4 fd) (take n (drop 4 fd)) (drop n (drop 4 fd)) r rest,
      length-drop n (drop 4 fd),
      length-drop 4 fd,
    )

read_key_takes :
    (header fd : List ℕ) (r : WalRecord) (rest : List ℕ)
    → read_key header fd ≡ ok (some (r, rest))
    → length rest ≤ length fd
unfolding read_key
read_key_takes header fd r rest h =
    let n = read_u32_be (drop 21 header) in
    ground (arith, read_value_takes header (take n fd) (drop n fd) r rest, length-drop n fd)

-- A record that is read takes bytes from the file.
pub read_next_takes :
    (fd : List ℕ) (r : WalRecord) (rest : List ℕ)
    → read_next_wal_record fd ≡ ok (some (r, rest))
    → length rest < length fd
unfolding read_next_wal_record
read_next_takes fd r rest h =
    ground
      (arith, read_key_takes (take 25 fd) (drop 25 fd) r rest, length-drop 25 fd, length-take 25 fd)

module _ {ℓ} {S : Type ℓ} (step : S → WalRecord → S) where
  -- One round more than there are bytes is enough.
  scan_wal_total :
      (fuel : ℕ) (fd : List ℕ) (s : S)
      → length fd < fuel
      → (end : S × Status) × (scan_wal fuel step fd s ≡ some end)
  unfolding scan_wal
  scan_wal_total zero fd s h = absurd (omega arith)
  scan_wal_total (suc fuel) fd s h = go (λ r rest. scan_wal_total fuel rest (step s r)) _ refl
    where
      go :
          ((r : WalRecord) (rest : List ℕ)
            → length rest < fuel
            → (end : S × Status) × (scan_wal fuel step rest (step s r) ≡ some end))
          → (res : ReadRecord) → read_next_wal_record fd ≡ res
          → (end : S × Status) × (scan_wal (suc fuel) step fd s ≡ some end)
      go next (err status) e = ((s, status), rw (e, scan_wal))
      go next (ok none) e = ((s, okay), rw (e, scan_wal))
      go next (ok (some (r, rest))) e =
          let (end, f) = next r rest (omega (arith, read_next_takes fd r rest e)) in
          (end, rw (e, scan_wal) f)

  -- On every file the scan ends with a status: the fuel that it gives itself is enough.
  pub scan_file_total :
      (fd : List ℕ) (s : S) → (end : S × Status) × (scan_file step fd s ≡ some end)
  unfolding scan_file
  scan_file_total fd s = scan_wal_total (suc (length fd)) fd s (omega arith)

  -- The whole records are seen in order, and a torn one ends the scan.
  scan_wal-encode_all :
      (fuel : ℕ) (rs : List WalRecord) (torn : List ℕ) (s : S)
      → length (encode_all rs ++ torn) < fuel
      → All IsValidRecord rs
      → IsTorn torn
      → scan_wal fuel step (encode_all rs ++ torn) s ≡ some (foldl step s rs, okay)
  unfolding scan_wal encode_all
  scan_wal-encode_all zero rs torn s h valid cut = absurd (omega arith)
  scan_wal-encode_all (suc fuel) [] torn s h valid cut =
      rw (read_next_wal_record_torn torn cut, scan_wal)
  scan_wal-encode_all (suc fuel) (r ∷ rs) torn s h valid cut =
      let read : read_next_wal_record ((encode_wal_record r ++ encode_all rs) ++ torn)
          ≡ ok (some (r, encode_all rs ++ torn)) =
        rw append_assoc (read_next_wal_record-encode r valid.0 (encode_all rs ++ torn)) in
      rw (read, scan_wal)
        (scan_wal-encode_all fuel rs torn (step s r) (omega (arith, read_next_takes _ r _ read))
          valid.1 cut)

  pub scan_file-encode_all :
      (rs : List WalRecord) (torn : List ℕ) (s : S)
      → All IsValidRecord rs
      → IsTorn torn
      → scan_file step (encode_all rs ++ torn) s ≡ some (foldl step s rs, okay)
  unfolding scan_file
  scan_file-encode_all rs torn s valid cut = scan_wal-encode_all _ rs torn s (omega arith) valid cut
