-- ===== src/FullNode/CoinStore/Rows.antt =====
-- The rows that the statements leave in the table.
use gold_blockchain.Base.{
  ℕ, ◌≡◌, refl, ap, ◌∙◌, inl, inr, Bool, not, Option, none, some, [], ◌∷◌, arith, ◌==◌,
  if◌then◌else◌, ==_iff, Bool-cases, Option-cases, keep,
}
use gold_blockchain.Base.Dict.{Dict, lookup, IsDict}
use gold_blockchain.Base.Int.{ℤ}
use gold_blockchain.FullNode.Conditions.{CoinRecord}
use gold_blockchain.FullNode.CoinStore.{
  mark_spent, update_spent, above, not_confirmed_above, reset_spent, reset_all_spent,
}

-- What becomes of a row that is there.
abbrev pub and_then : Option CoinRecord → (CoinRecord → Option CoinRecord) → Option CoinRecord
and_then none f = none
and_then (some r) f = f r

pub lookup-update_spent :
    (i name j : ℕ) (rows : Dict CoinRecord)
    → lookup j (update_spent i name rows)
      ≡ and_then (lookup j rows) (λ r. some (if j == name then mark_spent i r else r))
lookup-update_spent i name j [] = refl
lookup-update_spent i name j ((k, r) ∷ rows) = elim (Bool-cases (j == k)) [
  | inl same ↦ let e = (==_iff j k).0 same in rw same (rw e refl)
  | inr differ ↦ rw differ (lookup-update_spent i name j rows)
]

pub update_spent-IsDict :
    (i name : ℕ) (rows : Dict CoinRecord) → IsDict rows → IsDict (update_spent i name rows)
update_spent-IsDict i name [] h = tt
update_spent-IsDict i name ((k, r) ∷ rows) h =
    (rw (lookup-update_spent i name k rows, h.0) refl, update_spent-IsDict i name rows h.1)

module _ (p : CoinRecord → Bool) where
  abbrev pub kept : Dict CoinRecord → Dict CoinRecord
  kept rows = keep (λ row. p row.1) rows

  lookup-kept_none :
      (j : ℕ) (rows : Dict CoinRecord) → lookup j rows ≡ none → lookup j (kept rows) ≡ none
  lookup-kept_none j [] e = refl
  lookup-kept_none j ((k, r) ∷ rows) e = ground (arith, lookup-kept_none j rows)

  pub lookup-kept :
      (j : ℕ) (rows : Dict CoinRecord)
      → IsDict rows
      → lookup j (kept rows) ≡ and_then (lookup j rows) (λ r. if p r then some r else none)
  lookup-kept j [] h = refl
  lookup-kept j ((k, r) ∷ rows) h = elim (Bool-cases (j == k)) [
    | inl same ↦
        let e = (==_iff j k).0 same in
        let gone : lookup j (kept rows) ≡ none = lookup-kept_none j rows (rw e h.0) in
        elim (Bool-cases (p r)) [
          | inl stays ↦ rw (same, stays, same)
          | inr goes ↦ rw (same, goes) gone
        ]
    | inr differ ↦ elim (Bool-cases (p r)) [
      | inl stays ↦ rw (differ, stays, differ) (lookup-kept j rows h.1)
      | inr goes ↦ rw (differ, goes) (lookup-kept j rows h.1)
    ]
  ]

  pub kept-IsDict : (rows : Dict CoinRecord) → IsDict rows → IsDict (kept rows)
  kept-IsDict [] h = tt
  kept-IsDict ((k, r) ∷ rows) h = elim (Bool-cases (p r)) [
    | inl stays ↦ rw stays (lookup-kept_none k rows h.0, kept-IsDict rows h.1)
    | inr goes ↦ rw goes (kept-IsDict rows h.1)
  ]

pub lookup-reset_all_spent :
    (i : ℤ) (j : ℕ) (rows : Dict CoinRecord)
    → lookup j (reset_all_spent i rows) ≡ and_then (lookup j rows) (λ r. some (reset_spent i r))
lookup-reset_all_spent i j [] = refl
lookup-reset_all_spent i j ((k, r) ∷ rows) = elim (Bool-cases (j == k)) [
  | inl same ↦ rw same refl
  | inr differ ↦ rw differ (lookup-reset_all_spent i j rows)
]

reset_all_spent-IsDict :
    (i : ℤ) (rows : Dict CoinRecord) → IsDict rows → IsDict (reset_all_spent i rows)
reset_all_spent-IsDict i [] h = tt
reset_all_spent-IsDict i ((k, r) ∷ rows) h =
    (rw (lookup-reset_all_spent i k rows, h.0) refl, reset_all_spent-IsDict i rows h.1)

-- The table after a rollback.
abbrev pub rolled_back : ℤ → Dict CoinRecord → Dict CoinRecord
rolled_back i rows = reset_all_spent i (not_confirmed_above i rows)

-- What a rollback makes of a record.
abbrev pub rolled_record : ℤ → CoinRecord → Option CoinRecord
rolled_record i r = if above i r.confirmed_block_index then none else some (reset_spent i r)

pub lookup-rolled_back :
    (i : ℤ) (j : ℕ) (rows : Dict CoinRecord)
    → IsDict rows
    → lookup j (rolled_back i rows) ≡ and_then (lookup j rows) (rolled_record i)
lookup-rolled_back i j rows h =
    let step = lookup-kept (λ r. not (above i r.confirmed_block_index)) j rows h in
    lookup-reset_all_spent i j (not_confirmed_above i rows)
    ∙ ap (λ (o : Option CoinRecord). and_then o (λ r. some (reset_spent i r))) step
    ∙ elim (Option-cases (lookup j rows)) [
      | inl missing ↦ rw missing refl
      | inr (r, found) ↦ elim (Bool-cases (above i r.confirmed_block_index)) [
        | inl gone ↦ rw (found, gone) refl
        | inr stays ↦ rw (found, stays) refl
      ]
    ]

pub rolled_back-IsDict :
    (i : ℤ) (rows : Dict CoinRecord) → IsDict rows → IsDict (rolled_back i rows)
rolled_back-IsDict i rows h =
    reset_all_spent-IsDict i (not_confirmed_above i rows)
      (kept-IsDict (λ r. not (above i r.confirmed_block_index)) rows h)
