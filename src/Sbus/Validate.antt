-- ===== src/Sbus/Validate.antt =====
-- Which messages `ValidateSbusMessage` accepts.
use robofw.Common.{
  ℕ, ◌+◌, ◌≤◌, ◌≡◌, ◌∙◌, false, ◌&&◌, not, List, [], ◌∷◌, ltb, leb, ◌==◌, if◌then◌else◌, if-false,
  arith, Bool-cases, inl, inr,
}
use robofw.Sbus.{SbusMessage, few_zeros, first_eight, validate_sbus_message}

abbrev pub zeros : List ℕ → ℕ
zeros [] = 0
zeros (c ∷ cs) = (if c == 0 then 1 else 0) + zeros cs

few_zeros-zeros : (cs : List ℕ) (n : ℕ) → n ≤ 4 → few_zeros cs n ≡ leb (n + zeros cs) 4
unfolding few_zeros
few_zeros-zeros [] n h = ground arith
few_zeros-zeros (c ∷ cs) n h = elim (Bool-cases (ltb 4 (n + (if c == 0 then 1 else 0)))) [
  | inl e ↦ rw (few_zeros, e) (ground arith)
  | inr e ↦
      if-false false e
      ∙ few_zeros-zeros cs (n + (if c == 0 then 1 else 0)) (ground arith)
      ∙ ground arith
]

-- A message is accepted exactly when neither flag is set and at most four of its first eight
-- channels are zero.
pub validate_sbus_message-zeros :
    (msg : SbusMessage)
    → validate_sbus_message msg
      ≡ (not msg.fault_protection && not msg.frame_loss && leb (zeros (first_eight msg.channels)) 4)
unfolding validate_sbus_message
validate_sbus_message-zeros msg =
    ground (arith, few_zeros-zeros (first_eight msg.channels) 0 (omega arith))
