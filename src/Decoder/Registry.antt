-- ===== src/Decoder/Registry.antt =====
-- The registry of protocol decoders, of internal/decoder/registry.go. The mutex makes each method
-- one step. `D` is the type of decoders, of which a registry asks only `Protocol()`.
use akave_crosschain_archive.Base.{
  String, Option, none, some, [], ◌≡◌, ◌≢◌, arith, eq_iff, eq_refl, Result, ok, err, failure,
  Option-cases, inl, inr,
}
use akave_crosschain_archive.Base.Table.{Table, lookup, upsert, lookup-upsert}

module _ {ℓ} {D : Type ℓ} (protocol : D → String) where
  pub Registry : Type ℓ
  Registry = Table D

  unfoldable pub new_registry : Registry
  unfolding Registry
  new_registry = []

  -- `Get`
  unfoldable pub get : Registry → String → Option D
  unfolding Registry
  get r name = lookup name r

  -- `Register`: a second decoder of one protocol is refused.
  unfoldable pub register : Registry → D → Result Registry
  unfolding Registry get
  register r d = elim (get r (protocol d)) [
    | some _ ↦ err (failure "decoder already registered for protocol")
    | none ↦ ok (upsert (protocol d) d (λ _. d) r)
  ]

  -- What `Register` leaves: an error where the protocol was taken, and otherwise a registry where
  -- it reads as the new decoder and every other one as before.
  abbrev pub RegisterEffect : Registry → D → Result Registry → Type ℓ
  RegisterEffect r d (err _) = (old : D) × (get r (protocol d) ≡ some old)
  RegisterEffect r d (ok r') =
      (get r (protocol d) ≡ none)
      × (get r' (protocol d) ≡ some d)
      × ((name : String) → name ≢ protocol d → get r' name ≡ get r name)

  -- A decoder is refused if and only if one of its protocol is registered. Otherwise `Get` of its
  -- protocol returns it afterwards, and `Get` of another protocol what it did before.
  pub register-effect : (r : Registry) (d : D) → RegisterEffect r d (register r d)
  unfolding register get Registry
  register-effect r d = elim (Option-cases (get r (protocol d))) [
    | inr (old, taken) ↦ rw (taken, register) (old, taken)
    | inl free ↦
        rw (free, register)
          (
            free,
            ground
                (arith, eq_refl (protocol d), lookup-upsert (protocol d) (protocol d) d (λ _. d) r),
            λ name apart.
                ground
                  (arith, eq_iff (protocol d) name, lookup-upsert (protocol d) name d (λ _. d) r),
          )
  ]
