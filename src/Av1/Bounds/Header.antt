-- ===== src/Av1/Bounds/Header.antt =====
-- What `SequenceHeaderObu::parse` returns on any input.
use native.Mathlib.Nat.{pow-le-pow_right}
use video.Base.{
  ℕ, ◌+◌, ◌^◌, ◌≤◌, ◌<◌, ◌≡◌, refl, arith, Bool, true, false, not, ◌&&◌, ◌||◌, List, ◌==◌, length,
  All, Returns, Settles-mono,
}
use video.Io.{invalid_data}
use video.ByteOrder.{ByteOrder}
use video.BytesUtil.BitReader.{new_from_slice, read_bits}
use video.BytesUtil.BitReader.View.{new_from_slice-IsValid}
use video.BytesUtil.Parser.Gives.{
  Gives, Gives->>=, Gives-pure, Gives-if, Gives-mono, Inside, Gives-optional, Gives-ensure,
  Gives-read_bit, Gives-read_bits, Any,
}
use video.Av1.{ObuHeader}
use video.Av1.Sequence.{FrameIds, Tools, SequenceHeaderObu}
use video.Av1.Parse.{
  read_hints, read_integer_mv, read_tools, no_tools, read_frame_ids, read_frame_size, parse_bits,
  parse,
}
use video.Av1.Bounds.{IsColor, parse_color_config-Gives}
use video.Av1.Bounds.Points.{IsPoint, read_reduced_timing-Gives, read_full_timing-Gives}

abbrev IsSize : ℕ × ℕ → Type 0
IsSize (w, h) = ((1 ≤ w) × (w ≤ 2 ^ 16)) × ((1 ≤ h) × (h ≤ 2 ^ 16))

-- `n` bits, and one more than they say.
read_size : (n v : ℕ) → n < 16 → v < 2 ^ (n + 1) → (1 ≤ v + 1) × (v + 1 ≤ 2 ^ 16)
read_size n v h lt =
    let wide : 2 ^ (n + 1) ≤ 2 ^ 16 =
      pow-le-pow_right {n = 2} (omega arith) {i = n + 1} {j = 16} (omega arith) in
    (omega arith, omega arith)

read_frame_size-Gives : Gives read_frame_size IsSize
unfolding read_frame_size
read_frame_size-Gives = Gives->>= (Gives-read_bits 4 (omega arith)) λ n hn.
    Gives->>= (Gives-read_bits 4 (omega arith)) λ m hm.
      Gives->>= (Gives-read_bits (n + 1) (omega (arith, hn))) λ w hw.
        Gives->>= (Gives-read_bits (m + 1) (omega (arith, hm))) λ h hh.
          Gives-pure (w + 1, h + 1)
            (read_size n w (omega (arith, hn)) hw, read_size m h (omega (arith, hm)) hh)

pub record IsIds (ids : FrameIds) : Type 0 where
  pub delta : (2 ≤ ids.delta_frame_id_length) × (ids.delta_frame_id_length ≤ 17)
  pub additional : (1 ≤ ids.additional_frame_id_length) × (ids.additional_frame_id_length ≤ 8)

read_frame_ids-Gives : Gives read_frame_ids IsIds
unfolding read_frame_ids
read_frame_ids-Gives = Gives->>= (Gives-read_bits 4 (omega arith)) λ d hd.
    Gives->>= (Gives-read_bits 3 (omega arith)) λ a ha. Gives-pure _ (record {
      delta = (omega (arith, hd), omega (arith, hd));
      additional = (omega (arith, ha), omega (arith, ha));
    })

pub record IsTools (t : Tools) : Type 0 where
  pub content : t.seq_force_screen_content_tools ≤ 2
  pub motion : t.seq_force_integer_mv ≤ 2
  pub hint : t.order_hint_bits ≤ 8

read_hints-Gives : (b : Bool) → Gives (read_hints b) Any
unfolding read_hints
read_hints-Gives false = Gives-pure _ tt
read_hints-Gives true =
    Gives->>= Gives-read_bit λ a _. Gives->>= Gives-read_bit λ b _. Gives-pure _ tt

-- Two stands for a choice that is left open.
read_choice-Gives : Gives (read_bits 1) (λ n. n ≤ 2)
read_choice-Gives = Gives-mono (Gives-read_bits 1 (omega arith)) (λ n h. omega (arith, h))

read_integer_mv-Gives : (n : ℕ) → Gives (read_integer_mv n) (λ m. m ≤ 2)
unfolding read_integer_mv
read_integer_mv-Gives n =
    Gives-if (n == 0) (λ _. Gives-pure 2 (omega arith))
      (λ _.
        Gives->>= Gives-read_bit
          λ chosen _. Gives-if chosen (λ _. Gives-pure 2 (omega arith)) (λ _. read_choice-Gives))

read_tools-Gives : Gives read_tools IsTools
unfolding read_tools
read_tools-Gives = Gives->>= Gives-read_bit λ _ _. Gives->>= Gives-read_bit λ _ _.
    Gives->>= Gives-read_bit λ _ _. Gives->>= Gives-read_bit λ _ _.
      Gives->>= Gives-read_bit λ hint _. Gives->>= (read_hints-Gives hint) λ _ _.
        Gives->>= Gives-read_bit λ choose _.
          Gives->>= (Gives-if choose (λ _. Gives-pure 2 (omega arith)) (λ _. read_choice-Gives))
            λ content hc. Gives->>= (read_integer_mv-Gives content) λ mv hm.
              Gives->>=
                (Gives-if hint
                  (λ _.
                    Gives->>= (Gives-read_bits 3 (omega arith))
                      λ n h. Gives-pure (n + 1) (omega (arith, h)))
                  (λ _. Gives-pure {P = λ n. n ≤ 8} 0 (omega arith)))
                λ bits hb. Gives-pure _ (record { content = hc; motion = hm; hint = hb })

pub record IsBounded (h : SequenceHeaderObu) : Type 0 where
  pub profile : h.seq_profile < 8
  pub reduced : not h.reduced_still_picture_header || h.still_picture ≡ true
  pub points :
      (1 ≤ length h.operating_points)
      × (length h.operating_points ≤ 32)
      × All IsPoint h.operating_points
  pub size : IsSize (h.max_frame_width, h.max_frame_height)
  pub ids : Inside IsIds h.frame_ids
  pub tools : IsTools h.tools
  pub color : IsColor h.color_config

ensured : (still reduced : Bool) → not (not still && reduced) ≡ true → not reduced || still ≡ true
ensured true true e = refl
ensured true false e = refl
ensured false false e = refl
ensured false true e = e

parse_bits-Gives : (bo : ByteOrder) (header : ObuHeader) → Gives (parse_bits bo header) IsBounded
unfolding parse_bits
parse_bits-Gives bo header = Gives->>= (Gives-read_bits 3 (omega arith)) λ profile hp.
    Gives->>= Gives-read_bit λ still _. Gives->>= Gives-read_bit λ reduced _.
      Gives->>= (Gives-ensure _ invalid_data) λ _ he.
        Gives->>=
          (Gives-if reduced (λ _. read_reduced_timing-Gives) (λ _. read_full_timing-Gives bo))
          λ timing ht. Gives->>= read_frame_size-Gives λ size hs.
            Gives->>= (Gives-if reduced (λ _. Gives-pure false tt) (λ _. Gives-read_bit))
              λ numbered _. Gives->>= (Gives-optional numbered read_frame_ids-Gives) λ ids hi.
                Gives->>= Gives-read_bit λ _ _. Gives->>= Gives-read_bit λ _ _.
                  Gives->>= Gives-read_bit λ _ _.
                    Gives->>=
                      (Gives-if reduced
                        (λ _. Gives-pure no_tools (record {
                          content = omega arith;
                          motion = omega arith;
                          hint = omega arith;
                        }))
                        (λ _. read_tools-Gives))
                      λ tools hts. Gives->>= Gives-read_bit λ _ _. Gives->>= Gives-read_bit λ _ _.
                        Gives->>= Gives-read_bit λ _ _.
                          Gives->>= (parse_color_config-Gives profile) λ color hc.
                            Gives->>= Gives-read_bit λ _ _. Gives-pure _ (record {
                              profile = omega (arith, hp);
                              reduced = ensured still reduced he;
                              points = ht;
                              size = hs;
                              ids = hi;
                              tools = hts;
                              color = hc;
                            })

-- On any bytes `SequenceHeaderObu::parse` ends, and a header that it returns has a profile below
-- 8, a still picture where it is reduced, 1 to 32 operating points with fields in their ranges,
-- a frame of 1 to 65536 in width and height, frame id lengths of 2 to 17 and 1 to 8, tool
-- choices of at most 2, at most 8 order hint bits, and a colour configuration of 8 to 12 bits
-- and 1 to 3 planes.
pub parse-IsBounded :
    (bo : ByteOrder) (header : ObuHeader) (data_bytes : List ℕ)
    → Returns (λ (h, r). IsBounded h) (parse bo header data_bytes)
unfolding parse
parse-IsBounded bo header data_bytes =
    Settles-mono
      ((parse_bits-Gives bo header).run (new_from_slice data_bytes)
        (new_from_slice-IsValid data_bytes))
      (λ (h, r) (b, v). b)
