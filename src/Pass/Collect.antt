-- ===== src/Pass/Collect.antt =====
-- `runOnFunction`: what its loop over the blocks and the instructions gathers.
use mathlib.Core.List.{append-nil, append_assoc}
use embed_sanitizer.Common.{◌≡◌, ◌∙◌, refl, sym, ap, List, [], ◌∷◌, ◌++◌}
use embed_sanitizer.Ir.{Llvm, MemInst, Inst, plain, atomic, call, invoke, other}
use embed_sanitizer.Pass.{Collected, choose, flush, collect_inst, collect_block, collect}
use embed_sanitizer.Pass.Choose.{selected, choose-selected}

-- A block, cut at its calls; `local` is what came before the first instruction.
abbrev pub segments : List Inst → List MemInst → List (List MemInst)
segments [] local = local ∷ []
segments (plain i ∷ rest) local = segments rest (local ++ i ∷ [])
segments (atomic a ∷ rest) local = segments rest local
segments (call callee arg mem_intrinsic ∷ rest) local = local ∷ segments rest []
segments (invoke ∷ rest) local = local ∷ segments rest []
segments (other ∷ rest) local = segments rest local

abbrev pub selected_in : Llvm → List (List MemInst) → List MemInst
selected_in ir [] = []
selected_in ir (s ∷ ss) = selected ir s ++ selected_in ir ss

abbrev pub selected_of : Llvm → List (List Inst) → List MemInst
selected_of ir [] = []
selected_of ir (block ∷ rest) = selected_in ir (segments block []) ++ selected_of ir rest

regroup :
    (ir : Llvm) (all local more : List MemInst)
    → choose ir local all ++ more ≡ all ++ (selected ir local ++ more)
regroup ir all local more =
    ap (λ z. z ++ more) (choose-selected ir local all) ∙ append_assoc all (selected ir local) more

collect_block-selected :
    (ir : Llvm) (block : List Inst) (c : Collected)
    → ((collect_block ir block c).all ≡ c.all ++ selected_in ir (segments block c.local))
      × ((collect_block ir block c).local ≡ [])
unfolding collect_block collect_inst flush
collect_block-selected ir [] c = (
  choose-selected ir c.local c.all ∙ ap (λ z. c.all ++ z) (sym (append-nil (selected ir c.local))),
  refl,
)
collect_block-selected ir (plain i ∷ rest) c =
    collect_block-selected ir rest (collect_inst ir (plain i) c)
collect_block-selected ir (atomic a ∷ rest) c =
    collect_block-selected ir rest (collect_inst ir (atomic a) c)
collect_block-selected ir (other ∷ rest) c = collect_block-selected ir rest c
collect_block-selected ir (invoke ∷ rest) c =
    let (a, l) = collect_block-selected ir rest (collect_inst ir invoke c) in
    (a ∙ regroup ir c.all c.local (selected_in ir (segments rest [])), l)
collect_block-selected ir (call callee arg m ∷ rest) c =
    let (a, l) = collect_block-selected ir rest (collect_inst ir (call callee arg m) c) in
    (a ∙ regroup ir c.all c.local (selected_in ir (segments rest [])), l)

-- The loads and stores that a function gathers are those selected in each stretch of a block
-- between two calls, in the order of the stretches; no stretch goes on from one block to the next.
pub collect-selected :
    (ir : Llvm) (blocks : List (List Inst)) (c : Collected)
    → c.local ≡ []
    → ((collect ir blocks c).all ≡ c.all ++ selected_of ir blocks)
      × ((collect ir blocks c).local ≡ [])
unfolding collect
collect-selected ir [] c e = (sym (append-nil c.all), e)
collect-selected ir (block ∷ rest) c e =
    let (a, l) = collect_block-selected ir block c in
    let (b, k) = collect-selected ir rest (collect_block ir block c) l in
    let start : selected_in ir (segments block c.local) ≡ selected_in ir (segments block []) =
      ap (λ z. selected_in ir (segments block z)) e in
    (
      b
          ∙ ap (λ z. z ++ selected_of ir rest) (a ∙ ap (λ z. c.all ++ z) start)
          ∙ append_assoc c.all (selected_in ir (segments block [])) (selected_of ir rest),
      k,
    )
