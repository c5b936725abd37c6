-- ===== src/Conversion/Terms/Version.antt =====
-- The version that is tracked while transactions are added is that of the header, in
-- src/block_conversion_plugin.cpp.
use eos_evm_node.Base.{
  ℕ, ◌≡◌, ◌<◌, ◌^◌, inl, inr, Bool-cases, Option-cases, List, [], ◌∷◌, ◌==◌, Option, none, some,
  arith,
}
use eos_evm_node.Base.Action.{
  Outcome, ok, throw, undefined, Keeps, >>=-Keeps, of_outcome, modify, or_raise, ◌>>=◌, ◌>>◌,
}
use eos_evm_node.Channels.{NativeAction}
use eos_evm_node.Evm.{EvmtxType, version_of, rlpx_of}
use eos_evm_node.External.{External, VersionLaws}
use eos_evm_node.Conversion.State.{Error, unable_to_decode, deserialize_tx}
use eos_evm_node.Conversion.Apply.{
  Current, check_version, apply_prices, apply_base_fee, append_tx, decode_and_append, add_parsed,
  add_action, add_actions,
}

module _ {Tx : Type 0} (ext : External Tx) (laws : VersionLaws ext) where
  -- The version that the visitor keeps is that of the header.
  abbrev pub Consistent : Current Tx → Type 0
  Consistent c = ext.nonce_to_version c.header.nonce ≡ c.block_version

  check_version-Keeps : (v : ℕ) → v < 2 ^ 64 → Keeps Consistent (check_version ext v)
  unfolding check_version
  check_version-Keeps v low c h =
      let round : ext.nonce_to_version (ext.version_to_nonce v) ≡ v = laws.nonce_round v low in
      ground arith

  apply_prices-Keeps : (dtx : EvmtxType) → Keeps Consistent (apply_prices ext dtx)
  unfolding apply_prices
  apply_prices-Keeps dtx c h = ground arith

  apply_base_fee-Keeps : (dtx : EvmtxType) → Keeps Consistent (apply_base_fee ext dtx)
  unfolding apply_base_fee
  apply_base_fee-Keeps dtx c h = ground arith

  append_tx-Keeps : (tx : Tx) → Keeps {E = Error} Consistent (modify (append_tx ext tx))
  unfolding append_tx
  append_tx-Keeps tx c h = h

  decode_and_append-Keeps : (dtx : EvmtxType) → Keeps Consistent (decode_and_append ext dtx)
  unfolding decode_and_append
  decode_and_append-Keeps dtx =
      >>=-Keeps Consistent (λ tx. apply_base_fee ext dtx >> modify (append_tx ext tx))
        (λ tx.
          >>=-Keeps Consistent (λ _. modify (append_tx ext tx)) (λ _. append_tx-Keeps tx)
            (apply_base_fee ext dtx) (apply_base_fee-Keeps dtx))
        (or_raise (ext.decode_tx (rlpx_of dtx)) unable_to_decode)
        (λ c h. decoded c h (ext.decode_tx (rlpx_of dtx)))
    where
      decoded :
          (c : Current Tx)
          → Consistent c
          → (o : Option Tx) → Consistent (or_raise {E = Error} o unable_to_decode c).1
      decoded c h none = h
      decoded c h (some tx) = h

  add_parsed-Keeps :
      (dtx : EvmtxType) → version_of dtx < 2 ^ 64 → Keeps Consistent (add_parsed ext dtx)
  unfolding add_parsed
  add_parsed-Keeps dtx low =
      >>=-Keeps Consistent (λ _. apply_prices ext dtx >> decode_and_append ext dtx)
        (λ _.
          >>=-Keeps Consistent (λ _. decode_and_append ext dtx) (λ _. decode_and_append-Keeps dtx)
            (apply_prices ext dtx) (apply_prices-Keeps dtx))
        (check_version ext (version_of dtx)) (check_version-Keeps (version_of dtx) low)

  abbrev IsVersioned : Outcome Error EvmtxType → Type 0
  IsVersioned (ok dtx) = version_of dtx < 2 ^ 64
  IsVersioned (throw e) = Unit
  IsVersioned undefined = Unit

  deserialize_tx-IsVersioned : (act : NativeAction) → IsVersioned (deserialize_tx ext act)
  unfolding deserialize_tx
  deserialize_tx-IsVersioned act = elim (Bool-cases (act.name == ext.eosio_name "pushtx")) [
    | inl pushed ↦ elim (Option-cases (ext.pushtx_from_bin act.payload)) [
      | inl bad ↦ rw (pushed, bad) tt
      | inr (tx, good) ↦ rw (pushed, good) (omega arith)
    ]
    | inr other ↦ elim (Option-cases (ext.evmtx_from_bin act.payload)) [
      | inl bad ↦ rw (other, bad) tt
      | inr (dtx, good) ↦ rw (other, good) (laws.versions_u64 act.payload dtx good)
    ]
  ]

  add_action-Keeps : (act : NativeAction) → Keeps Consistent (add_action ext act)
  unfolding add_action
  add_action-Keeps act c h = parsed (deserialize_tx ext act) (deserialize_tx-IsVersioned act)
    where
      parsed :
          (r : Outcome Error EvmtxType)
          → IsVersioned r
          → Consistent ((of_outcome r >>= add_parsed ext) c).1
      parsed (ok dtx) low = add_parsed-Keeps dtx low c h
      parsed (throw e) low = h
      parsed undefined low = h

  pub add_actions-Keeps : (acts : List NativeAction) → Keeps Consistent (add_actions ext acts)
  unfolding add_actions
  add_actions-Keeps [] c h = h
  add_actions-Keeps (act ∷ acts) c h =
      >>=-Keeps Consistent (λ _. add_actions ext acts) (λ _. add_actions-Keeps acts)
        (add_action ext act) (add_action-Keeps act) c h
