-- ===== src/Baser/Facts.antt =====
-- Facts about the encoder and the decoder of src/eth/tb/baser.py that all kinds of block use.
use taxi.Prelude.{
  ℕ, ◌+◌, ◌*◌, ◌/◌, ◌%◌, ◌^◌, ◌<◌, ◌≡◌, ◌≢◌, refl, sym, ap, ◌∙◌, Bool, true, false, Option, some,
  bit_or, ◌==◌, if◌then◌else◌, low_bits, ◌>>>◌, ◌&&◌, arith, Option-cases, Bool-cases, inl, inr,
}
use taxi.Prelude.Bits.{bit_or_fields, bit_or_comm}
use taxi.Baser.Codes.{Codes, BlockType, IsStandard}
use taxi.Baser.Encode.{or_else, or_signal, is_os, ctrl_code}
use taxi.Baser.Decode.{
  os_char, by_type, decode, decode_type, find_type, type_order, to_bytes, ctrl_chars, ctrl_char,
}
use taxi.Baser.Fields.{bit_or_field, find_type-block}

pub eq_self : (n : ℕ) → (n == n) ≡ true
eq_self n = ground arith

pub ne_test : (a b : ℕ) → a ≢ b → (a == b) ≡ false
ne_test a b h = ground arith

pub and-false : (b : Bool) → (b && false) ≡ false
and-false true = refl
and-false false = refl

-- The bytes above a field of `a` zeros.
pub or_above : (block x : ℕ) → block < 2 ^ 8 → bit_or block (x * 2 ^ 8) ≡ x * 2 ^ 8 + block
or_above block x h = bit_or_comm block (x * 2 ^ 8) ∙ bit_or_fields 8 x block h

module _ (c : Codes) where
  -- A control character that both dictionaries know.
  pub record IsCtrl (d : ℕ) : Type 0 where
    pub code : ℕ
    pub coded : c.xgmii_ctrl_to_baser d ≡ some code
    pub decoded : c.baser_ctrl_to_xgmii code ≡ some d

  pub ctrl_char_lem :
      (d word i : ℕ)
      → IsCtrl d
      → low_bits (word >>> (i * 7 + 8)) 7 ≡ ctrl_code c d
      → ctrl_char c word i ≡ d
  ctrl_char_lem d word i k e =
      let code : ctrl_code c d ≡ k.code = ap (λ (o : Option ℕ). or_else o c.ctrl_error) k.coded in
      ap (λ (n : ℕ). or_else (c.baser_ctrl_to_xgmii n) c.error) (e ∙ code)
      ∙ ap (λ (o : Option ℕ). or_else o c.error) k.decoded

module _ (c : Codes) (s : IsStandard c) where
  pub ctrl_code-lt : (d : ℕ) → ctrl_code c d < 2 ^ 7
  ctrl_code-lt d = elim (Option-cases (c.xgmii_ctrl_to_baser d)) [
    | inl e ↦ omega (arith, ap (λ (o : Option ℕ). or_else o c.ctrl_error) e, s.error_lt)
    | inr (code, e) ↦
        omega (arith, ap (λ (o : Option ℕ). or_else o c.ctrl_error) e, s.code_lt d code e)
  ]

  -- The branch of the decoder for a control block with the value of a type in its lowest byte.
  pub decode_type_lem :
      (t : BlockType) (payload : ℕ)
      → low_bits (payload >>> (0 * 8)) 8 ≡ c.block t
      → decode c (record { hdr = c.sync_ctrl; payload = payload })
        ≡ decode_type c t (to_bytes 8 0 payload) (ctrl_chars c 8 0 payload)
  unfolding decode
  decode_type_lem t payload e =
      let db = to_bytes 8 0 payload in
      let codes = ctrl_chars c 8 0 payload in
      rw (ne_test c.sync_ctrl c.sync_data (λ h. s.headers (sym h))) (
        rw (eq_self c.sync_ctrl) (
          ap (λ (n : ℕ). by_type c (find_type c type_order n) db codes) e
          ∙ ap (λ (o : Option BlockType). by_type c o db codes) (find_type-block c s t)))

  -- The O code that the encoder sets for a character.
  abbrev pub o_code : ℕ → ℕ
  o_code d = if d == c.sig_os then c.o_sig else 0

  pub o_code-lt : (d : ℕ) → o_code d < 2 ^ 4
  o_code-lt d = ground (arith, s.o_sig_lt)

  pub or_signal_lem :
      (d shift word : ℕ)
      → word / 2 ^ shift % 2 ^ 4 ≡ 0
      → or_signal c d shift word ≡ word + o_code d * 2 ^ shift
  or_signal_lem d shift word h = elim (Bool-cases (d == c.sig_os)) [
    | inl e ↦ rw e (bit_or_field shift 4 word c.o_sig h s.o_sig_lt)
    | inr e ↦ rw e (omega arith)
  ]

  pub os_char-o_code : (d : ℕ) → is_os c d ≡ true → os_char c (o_code d) ≡ d
  os_char-o_code d h = ground (arith, s.o_seq_eq, s.o_sig_pos, s.signals)

  pub os-ne-start : (d : ℕ) → is_os c d ≡ true → (d == c.start) ≡ false
  os-ne-start d h = ground (arith, s.start_seq, s.start_sig)
