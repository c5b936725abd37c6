-- ===== src/Ship/Append/Ordered.antt =====
-- What the first loop of `append_to_block` in src/ship_receiver_plugin.cpp collects.
use mathlib.Core.Option.{some-injective}
use mathlib.Core.Bool.{true≢false}
use eos_evm_node.Base.{
  ℕ, zero, suc, ◌+◌, ◌≤◌, ◌<◌, ◌≡◌, ◌⊎◌, refl, sym, ap, subst, ◌∙◌, Bool, true, if◌then◌else◌, inl,
  inr, Bool-cases, List, [], ◌∷◌, some, arith, All, length, get_elem?,
}
use eos_evm_node.Base.Action.{
  Outcome, ok, throw, undefined, Ends, Ends-mono, >>=-Ends, ◌>>=◌, of_outcome, modify, pure,
}
use eos_evm_node.Ship.Append.{
  ActionTrace, TraceMap, ShipError, assign, order_action, order_actions, is_relevant, own_sequence,
}
use eos_evm_node.Ship.Append.Sorted.{Sorted, assign-Sorted, IsDefined, own_sequence-IsDefined}
use eos_evm_node.Ship.Append.Keyed.{
  Holds, assign-Holds, assign-Holds_kept, assign-All_kept, HasKey, own_sequence-HasKey,
}

module _ (core_account pushtx_n evmtx_n configchange_n : ℕ) where
  module _ (actions : List ActionTrace) where
    module _ (search : ℕ) where
      -- An entry is an action of the list that is searched for, under its sequence.
      abbrev pub Belongs : ℕ × ActionTrace → Type 0
      Belongs entry =
          (j : ℕ) × (get_elem? actions j ≡ some entry.1)
          × (is_relevant core_account pushtx_n evmtx_n configchange_n search entry.1 ≡ true)
          × HasKey core_account pushtx_n evmtx_n configchange_n actions j entry.1 entry.0

      -- From an index on, there is an action that is searched for and has the sequence.
      abbrev pub ReplacedFrom : ℕ → ℕ → Type 0
      ReplacedFrom j k =
          (i : ℕ) × (j ≤ i)
          × (act : ActionTrace) × (get_elem? actions i ≡ some act)
          × (is_relevant core_account pushtx_n evmtx_n configchange_n search act ≡ true)
          × HasKey core_account pushtx_n evmtx_n configchange_n actions i act k

      -- If the action is searched for, it is in the map, under its sequence, unless a later action with
      -- the same sequence has replaced it.
      abbrev pub Entered : ℕ → ActionTrace → TraceMap → Type 0
      Entered j act m =
          is_relevant core_account pushtx_n evmtx_n configchange_n search act ≡ true
          → (k : ℕ) × HasKey core_account pushtx_n evmtx_n configchange_n actions j act k
            × (Holds k act m ⊎ ReplacedFrom (suc j) k)

      -- What holds of a map that has been filled so far.
      abbrev pub IsOrdered : TraceMap → Type 0
      IsOrdered m = Sorted m × All Belongs m

      abbrev Grows : ℕ → TraceMap → TraceMap → Type 0
      Grows j m m' = (k : ℕ) (v : ActionTrace) → Holds k v m → Holds k v m' ⊎ ReplacedFrom j k

      Grows-trans : (j : ℕ) (m d m' : TraceMap) → Grows j m d → Grows (suc j) d m' → Grows j m m'
      Grows-trans j m d m' first second k v held = elim (first k v held) [
        | inl kept ↦ elim (second k v kept) [
          | inl still ↦ inl still
          | inr (i, low, act, there, taken, keyed) ↦ inr (i, omega arith, act, there, taken, keyed)
        ]
        | inr gone ↦ inr gone
      ]

      abbrev Orders : ℕ → ActionTrace → TraceMap → Outcome ShipError (Unit {0}) × TraceMap → Type 0
      Orders j act m =
          Ends (λ _ m'. IsOrdered m' × Grows j m m' × Entered j act m') (λ _ m'. IsOrdered m') ⊥

      order_key :
          (j : ℕ) (act : ActionTrace) (m : TraceMap) (r : Outcome ShipError ℕ)
          → own_sequence core_account pushtx_n evmtx_n configchange_n j actions act act.receipt ≡ r
          → IsDefined r
          → get_elem? actions j ≡ some act
          → is_relevant core_account pushtx_n evmtx_n configchange_n search act ≡ true
          → IsOrdered m
          → Orders j act m ((of_outcome r >>= λ key. modify (assign key act)) m)
      order_key j act m (ok key) e d there taken (sorted, belong) =
          let keyed : HasKey core_account pushtx_n evmtx_n configchange_n actions j act key =
            own_sequence-HasKey core_account pushtx_n evmtx_n configchange_n actions j act
              act.receipt key refl e in
          (
            (
              assign-Sorted key act m sorted,
              assign-All_kept key act Belongs m (j, there, taken, keyed) belong,
            ),
            λ k v held. elim (assign-Holds_kept key act k v m held) [
              | inl same ↦ inr (
                j,
                omega arith,
                act,
                there,
                taken,
                subst (HasKey core_account pushtx_n evmtx_n configchange_n actions j act) (sym same)
                    keyed,
              )
              | inr kept ↦ inl kept
            ],
            λ _. (key, keyed, inl (assign-Holds key act m)),
          )
      order_key j act m (throw x) e d there taken h = h
      order_key j act m undefined e d there taken h = elim d [ ]

      order_action-Orders :
          (j : ℕ) (act : ActionTrace) (m : TraceMap)
          → j < length actions
          → get_elem? actions j ≡ some act
          → IsOrdered m
          → Orders j act m
              (order_action core_account pushtx_n evmtx_n configchange_n search j actions act m)
      unfolding order_action
      order_action-Orders j act m low there h =
          elim (Bool-cases (is_relevant core_account pushtx_n evmtx_n configchange_n search act)) [
            | inl taken ↦ subst (Orders j act m) (sym (chosen taken)) (
                order_key j act m _ refl
                  (own_sequence-IsDefined core_account pushtx_n evmtx_n configchange_n j actions act
                    act.receipt low)
                  there taken h)
            | inr passed ↦
                subst (Orders j act m) (sym (chosen passed))
                  (h, (λ k v held. inl held), (λ taken. absurd (true≢false (sym taken ∙ passed))))
          ]
        where
          chosen :
              {b : Bool}
              → is_relevant core_account pushtx_n evmtx_n configchange_n search act ≡ b
              → order_action core_account pushtx_n evmtx_n configchange_n search j actions act m
                ≡ (if b
                      then (of_outcome (
                            own_sequence core_account pushtx_n evmtx_n configchange_n j actions act
                              act.receipt)
                          >>= λ key. modify (assign key act))
                      else pure tt)
                    m
          chosen e =
              ap
                (λ b.
                  (if b
                      then (of_outcome (
                            own_sequence core_account pushtx_n evmtx_n configchange_n j actions act
                              act.receipt)
                          >>= λ key. modify (assign key act))
                      else pure tt)
                    m)
                e

      -- The list is the rest of the actions from an index on.
      abbrev IsRest : ℕ → List ActionTrace → Type 0
      IsRest j rest =
          (i : ℕ) (act : ActionTrace)
          → get_elem? rest i ≡ some act
          → get_elem? actions (j + i) ≡ some act

      abbrev AllEntered : ℕ → List ActionTrace → TraceMap → Type 0
      AllEntered j rest m =
          (i : ℕ) (act : ActionTrace) → get_elem? rest i ≡ some act → Entered (j + i) act m

      -- The action at an index, after those behind it have been entered too.
      Entered-later :
          (j : ℕ) (act : ActionTrace) (m m' : TraceMap)
          → Grows (suc j) m m'
          → Entered j act m
          → Entered j act m'
      Entered-later j act m m' more entered taken =
          let (k, keyed, held) = entered taken in
          (k, keyed, elim held [ inl there ↦ more k act there | inr gone ↦ inr gone ])

      AllEntered-cons :
          (j : ℕ) (act : ActionTrace) (rest : List ActionTrace) (m' : TraceMap)
          → Entered j act m'
          → AllEntered (suc j) rest m'
          → AllEntered j (act ∷ rest) m'
      AllEntered-cons j act rest m' entered later zero x e =
          subst (λ n. Entered n x m') (omega arith)
            (subst (λ a. Entered j a m') (some-injective act x e) entered)
      AllEntered-cons j act rest m' entered later (suc i) x e =
          subst (λ n. Entered n x m') (omega arith) (later i x e)

      order_rest-IsOrdered :
          (j : ℕ) (rest : List ActionTrace) (m : TraceMap)
          → j + length rest ≡ length actions
          → IsRest j rest
          → IsOrdered m
          → Ends
              (λ _ m'. IsOrdered m' × Grows j m m' × AllEntered j rest m')
              (λ _ m'. IsOrdered m')
              ⊥
              (order_actions core_account pushtx_n evmtx_n configchange_n search j actions rest m)
      unfolding order_actions
      order_rest-IsOrdered j [] m n r h = (h, (λ k v held. inl held), (λ i act e. absurd (cc e)))
      order_rest-IsOrdered j (act ∷ rest) m n r h =
          >>=-Ends (λ _ m'. IsOrdered m' × Grows j m m' × Entered j act m')
            (λ _ m'. IsOrdered m' × Grows j m m' × AllEntered j (act ∷ rest) m')
            (λ _ m'. IsOrdered m') ⊥
            (λ _.
              order_actions core_account pushtx_n evmtx_n configchange_n search (suc j) actions
                rest)
            (order_action core_account pushtx_n evmtx_n configchange_n search j actions act) m
            (order_action-Orders j act m (omega arith)
              (subst (λ i. get_elem? actions i ≡ some act) (omega arith) (r 0 act refl)) h)
            λ _ d (ordered, more, entered).
              Ends-mono (λ _ m'. IsOrdered m' × Grows (suc j) d m' × AllEntered (suc j) rest m')
                (λ _ m'. IsOrdered m' × Grows j m m' × AllEntered j (act ∷ rest) m')
                (λ _ m'. IsOrdered m') (λ _ m'. IsOrdered m') ⊥ _
                (order_rest-IsOrdered (suc j) rest d (omega arith)
                  (λ i x e. subst (λ n. get_elem? actions n ≡ some x) (omega arith) (r (suc i) x e))
                  ordered)
                (λ _ m' (o, grown, later). (
                  o,
                  Grows-trans j m d m' more grown,
                  AllEntered-cons j act rest m' (Entered-later j act d m' grown entered) later,
                ))
                (λ _ m' o. o)

  -- The loop over the actions of a transaction never reads an action outside the list. Whether it
  -- returns or throws, what it has collected is in the strict order of its keys, and each entry is an
  -- action of the list that is searched for, under its sequence: for an `evmtx` that of the receipt of
  -- the earlier action that has created it, for a configuration 0, and for any other that of its own
  -- receipt. If it returns, each action that is searched for has such a sequence and is in the map under
  -- it, unless a later action that is searched for has the same one.
  pub order_actions-IsOrdered :
      (search : ℕ) (actions : List ActionTrace)
      → Ends
          (λ _ m.
            IsOrdered actions search m
            × ((j : ℕ) (act : ActionTrace)
                → get_elem? actions j ≡ some act
                → Entered actions search j act m))
          (λ _ m. IsOrdered actions search m)
          ⊥
          (order_actions core_account pushtx_n evmtx_n configchange_n search 0 actions actions [])
  order_actions-IsOrdered search actions =
      Ends-mono
        (λ _ m'.
          IsOrdered actions search m'
          × Grows actions search 0 [] m'
          × AllEntered actions search 0 actions m')
        _ (λ _ m'. IsOrdered actions search m') (λ _ m'. IsOrdered actions search m') ⊥ _
        (order_rest-IsOrdered actions search 0 actions [] (omega arith)
          (λ i act e. subst (λ n. get_elem? actions n ≡ some act) (omega arith) e) (tt, tt))
        (λ _ m (ordered, more, entered). (
          ordered,
          λ j act e. subst (λ n. Entered actions search n act m) (omega arith) (entered j act e),
        ))
        (λ _ m o. o)
