-- ===== src/Pass/Accounts.antt =====
-- The counters of the pass and what it does with the accesses of a function.
use embed_sanitizer.Common.{
  ℕ, ◌+◌, ◌≡◌, ◌∙◌, refl, sym, ap, Bool, List, [], ◌∷◌, ◌++◌, arith, length, length-append,
  if◌then◌else◌,
}
use mathlib.Core.List.{append-nil, append_assoc}
use embed_sanitizer.Ir.{
  Llvm, MemInst, load, store, memory, Inst, plain, atomic, call, invoke, other,
}
use embed_sanitizer.Pass.{
  should_instrument, addr_points_to_constant_data, is_not_captured, visit, reverse, choose, flush,
  Collected, collect_inst, collect_block, collect,
}
use embed_sanitizer.Pass.Choose.{targets, selected, choose-selected}
use embed_sanitizer.Pass.Counters.{
  Counter, count_constant_data, count_not_captured, count_visit, count_choose_loop, count_choose,
  count_inst, count_block, count_collect,
}

abbrev one_if : Bool → ℕ
one_if b = if b then 1 else 0

-- The accesses whose address is not excluded.
abbrev pub eligible : Llvm → List MemInst → ℕ
eligible ir [] = 0
eligible ir (i ∷ rest) = one_if (should_instrument ir (memory i).addr) + eligible ir rest

constant_data-length :
    (ir : Llvm) (addr : ℕ)
    → length (count_constant_data ir addr) ≡ one_if (addr_points_to_constant_data ir addr)
unfolding count_constant_data addr_points_to_constant_data
constant_data-length ir addr = ground arith

not_captured-length :
    (ir : Llvm) (addr : ℕ) → length (count_not_captured ir addr) ≡ one_if (is_not_captured ir addr)
unfolding count_not_captured
not_captured-length ir addr = ground arith

visit-length :
    (ir : Llvm) (i : MemInst) (t : List ℕ)
    → length (count_visit ir i t) + one_if (visit ir i t).0
      ≡ one_if (should_instrument ir (memory i).addr)
unfolding count_visit visit
visit-length ir (store m) t = let a = not_captured-length ir m.addr in ground (arith, a)
visit-length ir (load m) t =
    let a = not_captured-length ir m.addr in
    let b = constant_data-length ir m.addr in
    let c = length-append (count_constant_data ir m.addr) (count_not_captured ir m.addr) in
    ground (arith, a, b, c)

abbrev counted : Llvm → List MemInst → List Counter
counted ir [] = []
counted ir (i ∷ after) = counted ir after ++ count_visit ir i (targets ir after)

count_choose_loop-reverse :
    (ir : Llvm) (local rest : List MemInst)
    → count_choose_loop ir (reverse local ++ rest) []
      ≡ counted ir local ++ count_choose_loop ir rest (targets ir local)
unfolding count_choose_loop reverse
count_choose_loop-reverse ir [] rest = refl
count_choose_loop-reverse ir (i ∷ after) rest = rw (append_assoc (reverse after) (i ∷ []) rest) (
    count_choose_loop-reverse ir after (i ∷ rest)
    ∙ sym (
        append_assoc (counted ir after) (count_visit ir i (targets ir after))
          (count_choose_loop ir rest (visit ir i (targets ir after)).1)))

counted-length :
    (ir : Llvm) (local : List MemInst)
    → length (counted ir local) + length (selected ir local) ≡ eligible ir local
counted-length ir [] = refl
counted-length ir (i ∷ after) =
    let t = targets ir after in
    let b = (visit ir i t).0 in
    let pushed : length (if b then i ∷ [] else []) ≡ one_if b = ground arith in
    omega (
      arith,
      length-append (counted ir after) (count_visit ir i t),
      length-append (selected ir after) (if b then i ∷ [] else []),
      counted-length ir after,
      visit-length ir i t,
      pushed,
    )

-- Every eligible access of a stretch is chosen or counted as omitted.
choose-length :
    (ir : Llvm) (local all : List MemInst)
    → length (count_choose ir local) + length (choose ir local all) ≡ length all + eligible ir local
unfolding count_choose
choose-length ir local all =
    let e = count_choose_loop-reverse ir local [] in
    let e' : count_choose_loop ir (reverse local) [] ≡ counted ir local =
      unfold count_choose_loop in
      rw (append-nil (reverse local), append-nil (counted ir local)) at e in
    rw (e', choose-selected ir local all)
      (omega (arith, counted-length ir local, length-append all (selected ir local)))

eligible-append :
    (ir : Llvm) (xs ys : List MemInst) → eligible ir (xs ++ ys) ≡ eligible ir xs + eligible ir ys
eligible-append ir [] ys = omega arith
eligible-append ir (x ∷ xs) ys = omega (arith, eligible-append ir xs ys)

-- The eligible accesses among the instructions of a block and of a function.
abbrev pub eligible_in : Llvm → List Inst → ℕ
eligible_in ir [] = 0
eligible_in ir (plain i ∷ rest) =
    one_if (should_instrument ir (memory i).addr) + eligible_in ir rest
eligible_in ir (_ ∷ rest) = eligible_in ir rest

abbrev pub eligible_of : Llvm → List (List Inst) → ℕ
eligible_of ir [] = 0
eligible_of ir (block ∷ rest) = eligible_in ir block + eligible_of ir rest

inst-length :
    (ir : Llvm) (i : Inst) (c : Collected)
    → length (count_inst ir i c)
        + (length (collect_inst ir i c).all + eligible ir (collect_inst ir i c).local)
      ≡ length c.all + eligible ir c.local + eligible_in ir (i ∷ [])
unfolding count_inst collect_inst flush
inst-length ir (plain i) c = omega (arith, eligible-append ir c.local (i ∷ []))
inst-length ir (atomic a) c = omega arith
inst-length ir (call callee arg mem_intrinsic) c = omega (arith, choose-length ir c.local c.all)
inst-length ir invoke c = omega (arith, choose-length ir c.local c.all)
inst-length ir other c = omega arith

in_cons :
    (ir : Llvm) (i : Inst) (rest : List Inst)
    → eligible_in ir (i ∷ rest) ≡ eligible_in ir (i ∷ []) + eligible_in ir rest
in_cons ir (plain i) rest = omega arith
in_cons ir (atomic a) rest = omega arith
in_cons ir (call callee arg mem_intrinsic) rest = omega arith
in_cons ir invoke rest = omega arith
in_cons ir other rest = omega arith

block-length :
    (ir : Llvm) (block : List Inst) (c : Collected)
    → (length (count_block ir block c) + length (collect_block ir block c).all
        ≡ length c.all + eligible ir c.local + eligible_in ir block)
      × ((collect_block ir block c).local ≡ [])
unfolding count_block collect_block flush
block-length ir [] c = (omega (arith, choose-length ir c.local c.all), refl)
block-length ir (i ∷ rest) c =
    let d = collect_inst ir i c in
    let (n, l) = block-length ir rest d in
    (
      omega (
        arith,
        length-append (count_inst ir i c) (count_block ir rest d),
        n,
        inst-length ir i c,
        in_cons ir i rest,
      ),
      l,
    )

-- Every eligible access of a function is gathered or counted as omitted.
pub collect-length :
    (ir : Llvm) (blocks : List (List Inst)) (c : Collected)
    → c.local ≡ []
    → length (count_collect ir blocks c) + length (collect ir blocks c).all
      ≡ length c.all + eligible_of ir blocks
unfolding count_collect collect
collect-length ir [] c e = omega arith
collect-length ir (block ∷ rest) c e =
    let d = collect_block ir block c in
    let (n, l) = block-length ir block c in
    omega (
      arith,
      length-append (count_block ir block c) (count_collect ir rest d),
      n,
      collect-length ir rest d l,
      ap (eligible ir) e,
    )
