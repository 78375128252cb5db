-- ===== src/Proxy/Frames.antt =====
-- The packet that readStartupFrame takes from the connection.
use pgoverlay.Base.{
  ℕ, ◌+◌, ◌-◌, ◌/◌, ◌%◌, ◌≤◌, ◌<◌, Bool, true, false, ◌&&◌, ◌||◌, ◌≡◌, refl, sym, ap, ◌∙◌, Option,
  none, some, [], ◌∷◌, ◌++◌, arith, ltb, leb, if◌then◌else◌, length, length-append, take, drop,
  take-append-drop, take-append, drop-append, length-take, Bytes,
}
use pgoverlay.Proxy.Cancel.{cancel_frame}
use pgoverlay.Proxy.Startup.{
  packet, invalid_length, be32, size_of, code_of, read_payload, cut_short, read_startup_frame,
  min_startup_packet_len, max_startup_packet_len,
}

be32-be32_bytes :
    (n : ℕ)
    → n < 4294967296
    → be32 (n / 16777216 % 256) (n / 65536 % 256) (n / 256 % 256) (n % 256) ≡ n
be32-be32_bytes n h = omega (arith, h)

size_of_frame : (n : ℕ) → n ≤ 10000 → size_of (4 + n) ≡ some n
size_of_frame n h =
    let fits : (ltb (4 + n) 2147483648 && leb 4 (4 + n)) ≡ true = ground (arith, h) in
    let size : 4 + n - 4 ≡ n = omega arith in rw (fits, size) refl

read_payload-append :
    (payload rest : Bytes)
    → 4 ≤ length payload
    → length payload ≤ 10000
    → read_payload (some (length payload)) (payload ++ rest) ≡ packet (code_of payload) payload rest
read_payload-append payload rest low high =
    let fits : (ltb (length payload) min_startup_packet_len
          || ltb max_startup_packet_len (length payload))
        ≡ false =
      ground (arith, low, high) in
    let whole : ltb (length (payload ++ rest)) (length payload) ≡ false =
      ground (arith, length-append payload rest) in
    rw (fits, whole, take-append payload rest, drop-append payload rest) refl

-- The frame of a cancel request, whatever follows it on the connection, is read back as the request that
-- was forwarded, where the request has a length that the protocol allows.
pub read_startup_frame-cancel_frame :
    (payload rest : Bytes)
    → 4 ≤ length payload
    → length payload ≤ 10000
    → read_startup_frame (cancel_frame payload ++ rest) ≡ packet (code_of payload) payload rest
unfolding read_startup_frame cancel_frame
read_startup_frame-cancel_frame payload rest low high =
    ap (λ w. read_payload (size_of w) (payload ++ rest))
      (be32-be32_bytes ((4 + length payload) % 4294967296) (omega arith) ∙ whole)
    ∙ ap (λ o. read_payload o (payload ++ rest)) (size_of_frame (length payload) high)
    ∙ read_payload-append payload rest low high
  where
    whole : (4 + length payload) % 4294967296 ≡ 4 + length payload
    whole = omega (arith, high)

no_packet : (input payload rest : Bytes) (code : ℕ) → cut_short input ≡ packet code payload rest → ⊥
no_packet [] payload rest code e = cc
no_packet (c ∷ input) payload rest code e = cc

packet_parts :
    (code code' : ℕ) (payload payload' rest rest' : Bytes)
    → packet code payload rest ≡ packet code' payload' rest'
    → (code ≡ code') × (payload ≡ payload') × (rest ≡ rest')
packet_parts code code' payload payload' rest rest' e = ground (arith, e)

tests_pass :
    (a b : Bool) (size : ℕ) (input payload rest : Bytes) (code : ℕ)
    → (if a
        then invalid_length
        else if b
        then cut_short input
        else packet (code_of (take size input)) (take size input) (drop size input))
      ≡ packet code payload rest
    → (a ≡ false)
      × (b ≡ false)
      × (code ≡ code_of (take size input))
      × (take size input ≡ payload)
      × (drop size input ≡ rest)
tests_pass true b size input payload rest code e = absurd (cc)
tests_pass false true size input payload rest code e = absurd (no_packet input payload rest code e)
tests_pass false false size input payload rest code e =
    let (codes, payloads, rests) = packet_parts _ code _ payload _ rest e in
    (refl, refl, sym codes, payloads, rests)

read_payload_exact :
    (o : Option ℕ) (input payload rest : Bytes) (code : ℕ)
    → read_payload o input ≡ packet code payload rest
    → (payload ++ rest ≡ input)
      × (o ≡ some (length payload))
      × (4 ≤ length payload)
      × (length payload ≤ 10000)
      × (code ≡ code_of payload)
read_payload_exact none input payload rest code e = absurd (cc)
read_payload_exact (some size) input payload rest code e =
    let (good, whole, codes, payloads, rests) =
      tests_pass (ltb size min_startup_packet_len || ltb max_startup_packet_len size)
        (ltb (length input) size) size input payload rest code e in
    let size_is : size ≡ length payload =
      sym (length-take size input (ground (arith, whole))) ∙ ap (λ r. length r) payloads in
    (
      rw (← payloads, ← rests) (take-append-drop size input),
      ap some size_is,
      ground (arith, good, size_is),
      ground (arith, good, size_is),
      codes ∙ ap code_of payloads,
    )

-- A packet is exactly the frame that its length word announces: the four bytes of the word, the payload
-- and the rest are the bytes that came, the word gives the payload's length, which is 4 to 10000, and
-- the code stands at the payload's start.
pub frame_is_exact :
    (input payload rest : Bytes) (code : ℕ)
    → read_startup_frame input ≡ packet code payload rest
    → (take 4 input ++ (payload ++ rest) ≡ input)
      × (size_of (code_of input) ≡ some (length payload))
      × (4 ≤ length payload)
      × (length payload ≤ 10000)
      × (code ≡ code_of payload)
unfolding read_startup_frame
frame_is_exact [] payload rest code e = absurd (cc)
frame_is_exact (a ∷ []) payload rest code e = absurd (cc)
frame_is_exact (a ∷ b ∷ []) payload rest code e = absurd (cc)
frame_is_exact (a ∷ b ∷ c ∷ []) payload rest code e = absurd (cc)
frame_is_exact (a ∷ b ∷ c ∷ d ∷ input) payload rest code e =
    let (whole, size, low, high, codes) =
      read_payload_exact (size_of (be32 a b c d)) input payload rest code e in
    (ap (λ r. a ∷ b ∷ c ∷ d ∷ r) whole, size, low, high, codes)
