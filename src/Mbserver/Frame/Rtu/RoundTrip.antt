-- ===== src/Mbserver/Frame/Rtu/RoundTrip.antt =====
-- `NewRTUFrame` and `RTUFrame.Bytes`.
use virtual_bess.Prelude.{
  ℕ, zero, suc, ◌+◌, ◌*◌, ◌-◌, ◌≤◌, List, [], ◌∷◌, ◌++◌, ◌≡◌, refl, sym, ap, ◌∙◌, arith, All,
  IsByte, length, get_or, take, drop, take-append, drop-append, length-append, hi_byte, lo_byte,
  IsU16,
}
use virtual_bess.Prelude.Go.{ok, Slice, of_list, len}
use virtual_bess.Mbserver.Crc.{crc_modbus}
use virtual_bess.Mbserver.Crc.Reference.{crc_modbus-IsU16}
use virtual_bess.Mbserver.Frame.Rtu.{
  RtuFrame, trailer, without_trailer, frame_of, new_rtu_frame, rtu_body, rtu_bytes,
}

-- A packet that ends in two more bytes.
get_or-append : (xs : List ℕ) (a b : ℕ) → get_or (xs ++ (a ∷ (b ∷ []))) (length xs) 0 ≡ a
get_or-append [] a b = refl
get_or-append (x ∷ xs) a b = get_or-append xs a b

get_or-append_last : (xs : List ℕ) (a b : ℕ) → get_or (xs ++ (a ∷ (b ∷ []))) (length xs + 1) 0 ≡ b
get_or-append_last [] a b = ground arith
get_or-append_last (x ∷ xs) a b = ground (arith, get_or-append_last xs a b)

module _ (body : List ℕ) (lo hi : ℕ) where
  packet_of : List ℕ
  packet_of = body ++ (lo ∷ (hi ∷ []))

  length-packet_of : length packet_of ≡ length body + 2
  unfolding packet_of
  length-packet_of = length-append body (lo ∷ (hi ∷ []))

  front_of : without_trailer packet_of ≡ body
  front_of =
      let e : length packet_of - 2 ≡ length body = omega (arith, length-packet_of) in
      rw e (unfold packet_of in take-append body (lo ∷ (hi ∷ [])))

  back_of : drop (length packet_of - 2) packet_of ≡ lo ∷ (hi ∷ [])
  back_of =
      let e : length packet_of - 2 ≡ length body = omega (arith, length-packet_of) in
      rw e (unfold packet_of in drop-append body (lo ∷ (hi ∷ [])))

  trailer_of : trailer packet_of ≡ hi * 256 + lo
  trailer_of =
      let e : length packet_of - 2 ≡ length body = omega (arith, length-packet_of) in
      let e' : length packet_of - 1 ≡ length body + 1 = omega (arith, length-packet_of) in
      rw (e, e')
        (unfold packet_of in omega (arith, get_or-append body lo hi, get_or-append_last body lo hi))

-- A frame that `NewRTUFrame` can return.
pub record IsWellFormed (f : RtuFrame) : Type 0 where
  pub bytes : All IsByte (rtu_body f)
  pub some_data : 1 ≤ len f.payload

crc_bytes : (c : ℕ) → IsU16 c → hi_byte c * 256 + lo_byte c ≡ c
crc_bytes c h = omega arith

accepts :
    (p : Slice)
    → 5 ≤ length p.vals
    → crc_modbus (without_trailer p.vals) ≡ trailer p.vals
    → new_rtu_frame p ≡ ok (frame_of p)
unfolding new_rtu_frame
accepts p h k = ground arith

module _ (f : RtuFrame) where
  abbrev crc_of : ℕ
  crc_of = crc_modbus (rtu_body f)

  -- What parsing the bytes of `f` gives: the CRC bytes lie behind the data in the backing array.
  abbrev pub reparsed : RtuFrame
  reparsed = record f {
    payload = record { vals = f.payload.vals; spare = lo_byte crc_of ∷ (hi_byte crc_of ∷ []) };
    crc = 0;
  }

  abbrev written : List ℕ
  written = packet_of (rtu_body f) (lo_byte crc_of) (hi_byte crc_of)

  frame_of-written : frame_of (of_list written) ≡ reparsed
  frame_of-written =
      let front = front_of (rtu_body f) (lo_byte crc_of) (hi_byte crc_of) in
      let back = back_of (rtu_body f) (lo_byte crc_of) (hi_byte crc_of) in
      rw (front, back) (unfold packet_of in refl)

  new_rtu_frame-written : IsWellFormed f → new_rtu_frame (of_list written) ≡ ok reparsed
  new_rtu_frame-written w =
      let front = front_of (rtu_body f) (lo_byte crc_of) (hi_byte crc_of) in
      let back = trailer_of (rtu_body f) (lo_byte crc_of) (hi_byte crc_of) in
      let size = length-packet_of (rtu_body f) (lo_byte crc_of) (hi_byte crc_of) in
      let word = crc_bytes crc_of (crc_modbus-IsU16 (rtu_body f) w.bytes) in
      accepts (of_list written) (omega (arith, size, w.some_data))
        (ap crc_modbus front ∙ sym (back ∙ word))
      ∙ ap ok frame_of-written

  -- Parsing what `Bytes` wrote gives the frame back, if it has data and holds bytes.
  pub new_rtu_frame-rtu_bytes : IsWellFormed f → new_rtu_frame (of_list (rtu_bytes f)) ≡ ok reparsed
  unfolding rtu_bytes packet_of
  new_rtu_frame-rtu_bytes w = new_rtu_frame-written w

-- What `NewRTUFrame` accepts has at least five bytes, and its last two are the CRC of the others.
accepted :
    (p : Slice) (f : RtuFrame)
    → new_rtu_frame p ≡ ok f
    → (5 ≤ length p.vals)
      × (crc_modbus (without_trailer p.vals) ≡ trailer p.vals)
      × (f ≡ frame_of p)
unfolding new_rtu_frame
accepted p f h = ground arith

split_two :
    (n : ℕ) (xs : List ℕ)
    → length xs ≡ n + 2
    → take n xs ++ (get_or xs n 0 ∷ (get_or xs (n + 1) 0 ∷ [])) ≡ xs
split_two zero (a ∷ (b ∷ [])) h = ground arith
split_two (suc n) (a ∷ xs) h = ground (arith, split_two n xs (omega arith))
split_two zero [] h = absurd (omega arith)
split_two zero (a ∷ []) h = absurd (omega arith)
split_two zero (a ∷ (b ∷ (c ∷ xs))) h = absurd (omega arith)
split_two (suc n) [] h = absurd (omega arith)

take_heads :
    (k : ℕ) (xs : List ℕ)
    → 2 ≤ k
    → k ≤ length xs
    → get_or xs 0 0 ∷ (get_or xs 1 0 ∷ drop 2 (take k xs)) ≡ take k xs
take_heads (suc (suc k)) (a ∷ (b ∷ xs)) h g = ground arith
take_heads zero xs h g = absurd (omega arith)
take_heads (suc zero) xs h g = absurd (omega arith)
take_heads (suc (suc k)) [] h g = absurd (omega arith)
take_heads (suc (suc k)) (a ∷ []) h g = absurd (omega arith)

get_or-IsByte : (xs : List ℕ) (i : ℕ) → All IsByte xs → IsByte (get_or xs i 0)
get_or-IsByte [] i h = omega arith
get_or-IsByte (x ∷ xs) zero (hx, hs) = hx
get_or-IsByte (x ∷ xs) (suc i) (hx, hs) = get_or-IsByte xs i hs

module _ (xs : List ℕ) (h : 5 ≤ length xs) (b : All IsByte xs) where
  trailer_bytes :
      (lo_byte (trailer xs) ≡ get_or xs (length xs - 2) 0)
      × (hi_byte (trailer xs) ≡ get_or xs (length xs - 1) 0)
  trailer_bytes =
      omega (arith, get_or-IsByte xs (length xs - 2) b, get_or-IsByte xs (length xs - 1) b)

  rtu_bytes-frame_of :
      (p : Slice)
      → p.vals ≡ xs
      → crc_modbus (without_trailer xs) ≡ trailer xs
      → rtu_bytes (frame_of p) ≡ xs
  unfolding rtu_bytes
  rtu_bytes-frame_of p e k =
      let heads = take_heads (length xs - 2) xs (omega arith) (omega arith) in
      let index : length xs - 2 + 1 ≡ length xs - 1 = omega arith in
      let (lo, hi) = trailer_bytes in
      let tail : List ℕ = get_or xs (length xs - 2) 0 ∷ (get_or xs (length xs - 1) 0 ∷ []) in
      rw (e, heads, k, lo, hi)
        (ap (λ (t : List ℕ). t ++ tail) heads
          ∙ (rw index at (split_two (length xs - 2) xs (omega arith))))

-- Whatever packet of bytes `NewRTUFrame` accepts, `Bytes` of the frame is that packet again.
pub rtu_bytes-new_rtu_frame :
    (p : Slice) (f : RtuFrame) → All IsByte p.vals → new_rtu_frame p ≡ ok f → rtu_bytes f ≡ p.vals
rtu_bytes-new_rtu_frame p f h e =
    let (long, crc, same) = accepted p f e in rw same (rtu_bytes-frame_of p.vals long h p refl crc)
