-- ===== src/Prelude/Futures.antt =====
-- `core::task::Poll`, what polling a future returns.
pub data Poll {ℓ} (A : Type ℓ) : Type ℓ where
  ready : A → Poll A
  pending : Poll A
