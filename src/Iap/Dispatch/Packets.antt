-- ===== src/Iap/Dispatch/Packets.antt =====
-- `dispatch_packets` handles the packets of a frame one after the other, and always ends.
use esp32_s3_car_adapter.Common.{
  ℕ, zero, suc, ◌+◌, ◌≤◌, ◌<◌, ◌≡◌, ◌≢◌, refl, sym, List, [], ◌∷◌, ◌++◌, arith, none, some, inl,
  inr,
}
use esp32_s3_car_adapter.Common.{length, get_or, All, Option-cases, length-drop}
use esp32_s3_car_adapter.Iap.Packet.{
  Found, start_byte, next_packet, read_packet, find_start, cut_packet, pkt_encode,
}
use esp32_s3_car_adapter.Iap.Packet.RoundTrip.{next_packet-pkt_encode}
use esp32_s3_car_adapter.Iap.State.{Iap}
use esp32_s3_car_adapter.Iap.Dispatch.{
  accept_packet, handle_packet, dispatch_loop, dispatch_packets,
}

length-find_start : (f : List ℕ) → length (find_start f) ≤ length f
unfolding find_start
length-find_start [] = omega arith
length-find_start (x ∷ xs) = ground (arith, length-find_start xs)

cut_packet_shrinks :
    (hdr pay_len : ℕ) (f : List ℕ) (p : Found)
    → cut_packet hdr pay_len f ≡ some p
    → length p.rest < length f
unfolding cut_packet
cut_packet_shrinks hdr pay_len f p e = ground (arith, length-drop (hdr + pay_len + 1) f)

read_packet_shrinks : (f : List ℕ) (p : Found) → read_packet f ≡ some p → length p.rest < length f
unfolding read_packet
read_packet_shrinks [] p e = cc
read_packet_shrinks (zero ∷ []) p e = cc
read_packet_shrinks (zero ∷ hi ∷ []) p e = cc
read_packet_shrinks (zero ∷ hi ∷ lo ∷ f) p e = cut_packet_shrinks 3 _ (zero ∷ hi ∷ lo ∷ f) p e
read_packet_shrinks (suc k ∷ f) p e = cut_packet_shrinks 1 (suc k) (suc k ∷ f) p e

pub next_packet_shrinks :
    (f : List ℕ) (p : Found) → next_packet f ≡ some p → length p.rest < length f
unfolding next_packet
next_packet_shrinks f p e =
    omega (arith, read_packet_shrinks (find_start f) p e, length-find_start f)

-- A junk-and-command pair that `pkt_encode` can carry.
abbrev pub CanCarry : List ℕ × List ℕ → Type 0
CanCarry (junk, cmd) =
    All (λ x. x ≢ start_byte) junk × (0 < length cmd) × (length cmd ≢ 256) × (length cmd ≤ 65530)

-- Packets one after the other, with junk in front of each, and `tail` behind the last.
unfoldable pub stream : List (List ℕ × List ℕ) → List ℕ → List ℕ
stream [] tail = tail
stream ((junk, cmd) ∷ ps) tail = junk ++ pkt_encode cmd ++ stream ps tail

pub next_packet-nil : next_packet [] ≡ none
unfolding next_packet find_start read_packet
next_packet-nil = refl

module _ (clock : ℕ → ℕ) where
  -- The commands, handled in order.
  unfoldable pub accept_all : List (List ℕ × List ℕ) → Iap → Iap
  accept_all [] s = s
  accept_all ((junk, cmd) ∷ ps) s = accept_all ps (accept_packet clock (get_or cmd 0 0) cmd s)

  dispatch_loop-end :
      (n : ℕ) (frame : List ℕ) (s : Iap)
      → next_packet frame ≡ none
      → dispatch_loop clock n frame s ≡ s
  unfolding dispatch_loop
  dispatch_loop-end zero frame s e = refl
  dispatch_loop-end (suc n) frame s e = rw (e, dispatch_loop)

  -- dispatch_packets is done with a frame in as many rounds as the frame has bytes: with any larger
  -- number of rounds the loop gives the same state.
  pub dispatch_loop_fuel :
      (m : ℕ) (frame : List ℕ) (s : Iap)
      → length frame ≤ m
      → dispatch_loop clock m frame s ≡ dispatch_packets clock frame s
  unfolding dispatch_packets
  dispatch_loop_fuel m frame s h = enough m (length frame) frame s h (omega arith)
    where
      enough :
          (m n : ℕ) (frame : List ℕ) (s : Iap)
          → length frame ≤ m
          → length frame ≤ n
          → dispatch_loop clock m frame s ≡ dispatch_loop clock n frame s
      enough zero n [] s hm hn = sym (dispatch_loop-end n [] s next_packet-nil)
      enough zero n (x ∷ xs) s hm hn = absurd (omega arith)
      enough (suc m) zero [] s hm hn = dispatch_loop-end (suc m) [] s next_packet-nil
      enough (suc m) zero (x ∷ xs) s hm hn = absurd (omega arith)
      enough (suc m) (suc n) frame s hm hn = elim (Option-cases (next_packet frame)) [
        | inl e ↦ rw (e, dispatch_loop)
        | inr (p, e) ↦
            let less : length p.rest < length frame = next_packet_shrinks frame p e in
            rw (e, dispatch_loop)
              (enough m n p.rest (handle_packet clock p s) (omega arith) (omega arith))
      ]

  dispatch_loop-stream :
      (ps : List (List ℕ × List ℕ)) (tail : List ℕ) (n : ℕ) (s : Iap)
      → All CanCarry ps
      → next_packet tail ≡ none
      → length (stream ps tail) ≤ n
      → dispatch_loop clock n (stream ps tail) s ≡ accept_all ps s
  unfolding stream accept_all handle_packet dispatch_loop
  dispatch_loop-stream [] tail n s h e hn = dispatch_loop-end n tail s e
  dispatch_loop-stream ((junk, cmd) ∷ ps) tail n s h e hn = step n hn (dispatch_loop-stream ps tail)
    where
      first :
          next_packet (junk ++ pkt_encode cmd ++ stream ps tail)
          ≡ some (record { payload = cmd; lead = get_or cmd 0 0; sum = 0; rest = stream ps tail })
      first = next_packet-pkt_encode junk cmd (stream ps tail) h.0.0 h.0.1 h.0.2 h.0.3

      step :
          (n : ℕ)
          → length (junk ++ pkt_encode cmd ++ stream ps tail) ≤ n
          → ((n : ℕ) (s : Iap)
              → All CanCarry ps
              → next_packet tail ≡ none
              → length (stream ps tail) ≤ n
              → dispatch_loop clock n (stream ps tail) s ≡ accept_all ps s)
          → dispatch_loop clock n (junk ++ pkt_encode cmd ++ stream ps tail) s
            ≡ accept_all ps (accept_packet clock (get_or cmd 0 0) cmd s)
      step zero hn ih = absurd (omega (arith, next_packet_shrinks _ _ first))
      step (suc n) hn ih =
          rw (first, dispatch_loop) (ih n _ h.1 e (omega (arith, next_packet_shrinks _ _ first)))

  -- A frame of packets, with bytes between them that are no start byte and with a tail that holds
  -- no whole packet, is handled as its commands one after the other, each once and in order. The
  -- commands are those that pkt_encode can carry; the tail has no effect.
  pub dispatch_packets-stream :
      (ps : List (List ℕ × List ℕ)) (tail : List ℕ) (s : Iap)
      → All CanCarry ps
      → next_packet tail ≡ none
      → dispatch_packets clock (stream ps tail) s ≡ accept_all ps s
  unfolding dispatch_packets
  dispatch_packets-stream ps tail s h e = dispatch_loop-stream ps tail _ s h e (omega arith)

  pub dispatch_packets-end :
      (frame : List ℕ) (s : Iap) → next_packet frame ≡ none → dispatch_packets clock frame s ≡ s
  unfolding dispatch_packets
  dispatch_packets-end frame s e = dispatch_loop-end (length frame) frame s e
