-- ===== src/FullNode/Manager/Taking.antt =====
-- Which transactions the loops of `create_bundle_from_mempool` of
-- chia/full_node/mempool_manager.py take.
use gold_blockchain.Base.{
  ◌+◌, ◌*◌, ◌≤◌, ◌<◌, ◌≡◌, refl, sym, ap, ◌∙◌, ◌≢◌, ◌⊎◌, inl, inr, Bool, true, false, ◌&&◌, List,
  [], ◌∷◌, ◌++◌, map, arith, leb, Bool-cases, Ensures, Ensures-of, Ensures-at, Ensures-bind,
}
use gold_blockchain.Base.Dict.{Dict}
use gold_blockchain.Base.Floats.{true_div}
use gold_blockchain.Consensus.Constants.{ConsensusConstants}
use gold_blockchain.FullNode.Items.{MempoolItem}
use gold_blockchain.FullNode.Manager.{Block, append_item, take_rate, take_rates}

abbrev pub values : Dict MempoolItem → List MempoolItem
values = map (λ e. e.1)

-- The transactions of all fee rates, in the order of the rates.
unfoldable pub items_of : Dict (Dict MempoolItem) → List MempoolItem
items_of [] = []
items_of ((rate, dic) ∷ rates) = values dic ++ items_of rates

-- What a block holds after some transactions more.
unfoldable pub with_items : Block → List MempoolItem → Block
with_items block [] = block
with_items block (item ∷ items) = with_items (append_item block item) items

module _ (c : ConsensusConstants) where
  -- At most half a block of cost, and fees within the largest amount of a coin.
  abbrev pub IsWithin : Block → Type 0
  IsWithin block =
      (2 * block.cost_sum ≤ c.max_block_cost_clvm) × (block.fee_sum ≤ c.max_coin_amount)

  -- The transactions are all taken, or the next one would not fit.
  abbrev pub StopsAt : Block → List MempoolItem → Type 0
  StopsAt block [] = Unit
  StopsAt block (item ∷ items) =
      (c.max_block_cost_clvm < 2 * (item.cost + block.cost_sum))
      ⊎ (c.max_coin_amount < item.fee + block.fee_sum)

  -- Of a list a first part is taken, as much as fits.
  abbrev pub IsTaken : Block → List MempoolItem → Block → Type 0
  IsTaken block items after =
      (taken : List MempoolItem) × (left : List MempoolItem) × (items ≡ taken ++ left)
      × (after ≡ with_items block taken)
      × IsWithin after
      × StopsAt after left

  -- The inner loop breaks off exactly where something is left.
  abbrev Breaks : Block → Block → List MempoolItem → Bool → Type 0
  Breaks block after items broke =
      (taken : List MempoolItem) × (left : List MempoolItem) × (items ≡ taken ++ left)
      × (after ≡ with_items block taken)
      × IsWithin after
      × StopsAt after left
      × (broke ≡ false → left ≡ [])
      × (broke ≡ true → left ≢ [])

  take_rate_lem :
      (block : Block) (dic : Dict MempoolItem)
      → IsWithin block
      → Ensures (take_rate c block dic) (λ r. Breaks block r.0 (values dic) r.1)
  unfolding take_rate with_items
  take_rate_lem block [] within = ([], [], refl, refl, within, tt, (λ h. refl), λ h. cc)
  take_rate_lem block ((name, item) ∷ dic) within =
      Ensures-bind (true_div item.fee item.cost) _ _ (λ _ _.
        elim (Bool-cases (
          leb (2 * (item.cost + block.cost_sum)) c.max_block_cost_clvm
          && leb (item.fee + block.fee_sum) c.max_coin_amount)) [
            | inl fits ↦ rw fits (
                Ensures-of (take_rate c (append_item block item) dic) _ (λ r e.
                  let (taken, left, split, is, w, stop, go_on, broken) =
                    Ensures-at (take_rate c (append_item block item) dic)
                      (λ r. Breaks (append_item block item) r.0 (values dic) r.1)
                      (take_rate_lem (append_item block item) dic (fitting fits)) e in
                  (item ∷ taken, left, ap (◌∷◌ item) split, is, w, stop, go_on, broken)))
            | inr full ↦
                rw full
                  ([], item ∷ values dic, refl, refl, within, stopped full, (λ h. cc), λ h k. cc)
          ])
    where
      fitting :
          (leb (2 * (item.cost + block.cost_sum)) c.max_block_cost_clvm
              && leb (item.fee + block.fee_sum) c.max_coin_amount)
            ≡ true
          → IsWithin (append_item block item)
      fitting fits = ground arith

      stopped :
          (leb (2 * (item.cost + block.cost_sum)) c.max_block_cost_clvm
              && leb (item.fee + block.fee_sum) c.max_coin_amount)
            ≡ false
          → StopsAt block (item ∷ values dic)
      stopped full =
          elim (Bool-cases (leb (2 * (item.cost + block.cost_sum)) c.max_block_cost_clvm)) [
            | inl low ↦ inr (ground (arith, full, low))
            | inr high ↦ inl (ground (arith, high))
          ]

  append_assoc : (xs ys zs : List MempoolItem) → (xs ++ ys) ++ zs ≡ xs ++ (ys ++ zs)
  append_assoc [] ys zs = refl
  append_assoc (x ∷ xs) ys zs = ap (◌∷◌ x) (append_assoc xs ys zs)

  append-nil : (xs : List MempoolItem) → xs ++ [] ≡ xs
  append-nil [] = refl
  append-nil (x ∷ xs) = ap (◌∷◌ x) (append-nil xs)

  with_items-append :
      (block : Block) (xs ys : List MempoolItem)
      → with_items block (xs ++ ys) ≡ with_items (with_items block xs) ys
  unfolding with_items
  with_items-append block [] ys = refl
  with_items-append block (x ∷ xs) ys = with_items-append (append_item block x) xs ys

  StopsAt-append :
      (block : Block) (xs ys : List MempoolItem)
      → xs ≢ []
      → StopsAt block xs
      → StopsAt block (xs ++ ys)
  StopsAt-append block [] ys some_left stop = absurd (some_left refl)
  StopsAt-append block (x ∷ xs) ys some_left stop = stop

  -- The inner loop has taken all of a rate: the next rates go on from there.
  rates_go_on :
      (block : Block) (r : Block × Bool) (dic : Dict MempoolItem) (after : Block)
      (rest : List MempoolItem)
      → Breaks block r.0 (values dic) r.1
      → r.1 ≡ false
      → IsTaken r.0 rest after
      → IsTaken block (values dic ++ rest) after
  rates_go_on block r dic after rest (taken, left, split, is, w, stop, go_on, broken) ended
        (taken', left', split', is', w', stop') =
      (
        taken ++ taken',
        left',
        ap (λ l. l ++ rest) (split ∙ ap (λ l. taken ++ l) (go_on ended) ∙ append-nil taken)
            ∙ ap (λ l. taken ++ l) split'
            ∙ sym (append_assoc taken taken' left'),
        ground (arith, is, is', with_items-append block taken taken'),
        w',
        stop',
      )

  -- It has broken off: nothing more is taken.
  rates_stop :
      (block : Block) (r : Block × Bool) (dic : Dict MempoolItem) (rest : List MempoolItem)
      → Breaks block r.0 (values dic) r.1
      → r.1 ≡ true
      → IsTaken block (values dic ++ rest) r.0
  rates_stop block r dic rest (taken, left, split, is, w, stop, go_on, broken) ended = (
    taken,
    left ++ rest,
    ap (λ l. l ++ rest) split ∙ append_assoc taken left rest,
    is,
    w,
    StopsAt-append r.0 left rest (broken ended) stop,
  )

  pub take_rates_lem :
      (block : Block) (rates : Dict (Dict MempoolItem))
      → IsWithin block
      → Ensures (take_rates c block rates) (IsTaken block (items_of rates))
  unfolding take_rates items_of with_items
  take_rates_lem block [] within = ([], [], refl, refl, within, tt)
  take_rates_lem block ((rate, dic) ∷ rates) within =
      Ensures-bind (take_rate c block dic) _ (IsTaken block (values dic ++ items_of rates)) (λ r e.
        let inner =
          Ensures-at (take_rate c block dic) (λ r. Breaks block r.0 (values dic) r.1)
            (take_rate_lem block dic within) e in
        elim (Bool-cases r.1) [
          | inl broke ↦ rw broke (rates_stop block r dic (items_of rates) inner broke)
          | inr ended ↦ rw ended (
              Ensures-of (take_rates c r.0 rates) _ (λ after e'.
                rates_go_on block r dic after (items_of rates) inner ended (
                  Ensures-at (take_rates c r.0 rates) (IsTaken r.0 (items_of rates))
                    (take_rates_lem r.0 rates inner.4) e')))
        ])
