-- ===== src/Client/Topology/Linux/Pinned.antt =====
-- client/topology.cpp: the cores that `decide_admission` grants on a host that `detect_linux` finds.
use capi_net.Base.{
  ℕ, zero, suc, ◌≡◌, ◌≢◌, sym, arith, subst, true, Option, none, some, Bool, false, List, [], ◌∷◌,
  String, length, contains, map, not, All, All-impl, inl, inr, if◌then◌else◌, set_insert,
  IsDistinct, Ascending, set_insert-Ascending, Ascending-IsDistinct,
}
use capi_net.Base.Int.{ℤ, pos, negsuc}
use capi_net.Client.Config.{Text, cut}
use capi_net.Client.Pgn.{is_nil}
use capi_net.Client.Topology.{Topology, decide_admission}
use capi_net.Client.Admitted.{contains_self, decide_admission-grants}
use capi_net.Client.Topology.Linux.{
  LinuxFiles, insert_run, insert_range, insert_one, insert_part, insert_parts, stoi, or_counted,
  parse_cpu_list, online_cpus, read_file, eq_ℤ, best_class, core_key, class_of, is_seen, pick,
  classes, detect_linux,
}
use capi_net.Client.Topology.Linux.Online.{
  Online, pick-All, classes-Classed, All-firsts, All-contains, of_classes-some,
}

insert_run-Ascending : (i n : ℕ) (out : List ℕ) → Ascending out → Ascending (insert_run i n out)
unfolding insert_run
insert_run-Ascending i zero out a = a
insert_run-Ascending i (suc n) out a =
    insert_run-Ascending (suc i) n (set_insert i out) (set_insert-Ascending i out a)

range-Ascending : (a b : Option ℤ) (out : List ℕ) → Ascending out → Ascending (insert_range a b out)
range-Ascending none b out h = h
range-Ascending (some (negsuc m)) b out h = h
range-Ascending (some (pos m)) none out h = h
range-Ascending (some (pos m)) (some (negsuc n)) out h = h
range-Ascending (some (pos m)) (some (pos n)) out h = insert_run-Ascending m _ out h

one-Ascending : (o : Option ℤ) (out : List ℕ) → Ascending out → Ascending (insert_one o out)
one-Ascending none out h = h
one-Ascending (some (negsuc n)) out h = h
one-Ascending (some (pos n)) out h = set_insert-Ascending n out h

part-Ascending :
    (part : Text) (o : Option (Text × Text)) (out : List ℕ)
    → Ascending out
    → Ascending (insert_part part o out)
part-Ascending part none out h = one-Ascending (stoi part) out h
part-Ascending part (some (a, b)) out h = range-Ascending (stoi a) (stoi b) out h

parts-Ascending :
    (parts : List Text) (out : List ℕ) → Ascending out → Ascending (insert_parts parts out)
unfolding insert_parts
parts-Ascending [] out h = h
parts-Ascending ([] ∷ parts) out h = parts-Ascending parts out h
parts-Ascending ((c ∷ cs) ∷ parts) out h =
    parts-Ascending parts (insert_part (c ∷ cs) (cut b'-' (c ∷ cs)) out)
      (part-Ascending (c ∷ cs) (cut b'-' (c ∷ cs)) out h)

counted-Ascending : (n : ℕ) (cs : List ℕ) → Ascending cs → Ascending (or_counted n cs)
counted-Ascending n [] h = insert_run-Ascending 0 n [] tt
counted-Ascending n (c ∷ cs) h = h

-- The processors that are online are listed once.
online_cpus-IsDistinct : (f : LinuxFiles) → IsDistinct (online_cpus f)
unfolding online_cpus parse_cpu_list
online_cpus-IsDistinct f =
    Ascending-IsDistinct (or_counted f.processors (parse_cpu_list (read_file f.online)))
      (counted-Ascending f.processors _ (parts-Ascending _ [] tt))

IsDistinct-if :
    (b : Bool) (xs ys : List ℕ) → IsDistinct xs → IsDistinct ys → IsDistinct (if b then xs else ys)
IsDistinct-if true xs ys h k = h
IsDistinct-if false xs ys h k = k

-- Nothing is picked twice.
pick-IsDistinct :
    (f : LinuxFiles) (best : ℤ) (seen : List (Text × Text)) (ks : List (ℕ × ℤ))
    → IsDistinct (map (λ c. c.0) ks)
    → IsDistinct (pick f best seen ks)
unfolding pick
pick-IsDistinct f best seen [] h = tt
pick-IsDistinct f best seen (c ∷ cs) h =
    let key = core_key f c.0 in
    let apart = All-firsts (λ y. y ≢ c.0) cs h.0 in
    let others = pick-IsDistinct f best seen cs h.1 in
    let next = pick-IsDistinct f best (key ∷ seen) cs h.1 in
    IsDistinct-if (not (eq_ℤ c.1 best)) _ _ others (
      IsDistinct-if (is_nil key.1) _ _ (pick-All (λ y. y ≢ c.0) f best seen cs apart, others)
        (IsDistinct-if (is_seen key seen) _ _ others
          (pick-All (λ y. y ≢ c.0) f best (key ∷ seen) cs apart, next)))

module _ (text : Text → String) (f : LinuxFiles) where
  abbrev Spread : Topology → Type 0
  Spread t = IsDistinct t.fast_cores × All (λ c. contains c (online_cpus f) ≡ true) t.fast_cores

  detect_linux-Spread : {t : Topology} → detect_linux text f ≡ some t → Spread t
  unfolding detect_linux
  detect_linux-Spread {t} h =
      let cpus = online_cpus f in
      let (ks, e, q) = of_classes-some text f (length cpus) (classes (class_of f) cpus) h in
      let (firsts, classed) = classes-Classed (class_of f) cpus e in
      let online : All (Online text f) (map (λ c. c.0) ks) =
        subst (All (Online text f)) (sym firsts) (contains_self cpus) in
      let apart : IsDistinct (map (λ c. c.0) ks) =
        subst IsDistinct (sym firsts) (online_cpus-IsDistinct f) in
      subst Spread q (
        pick-IsDistinct f (best_class ks (pos 0)) [] ks apart,
        pick-All (Online text f) f (best_class ks (pos 0)) [] ks
            (All-firsts (Online text f) ks online),
      )

  -- An admission on a host that detect_linux finds, with affinity, gives one core to each slot, all
  -- of them distinct and all of them processors that are online.
  pub decide_admission-pins :
      (show : ℕ → String) (slots : ℕ) (cores : Option (List ℕ)) {t : Topology}
      → detect_linux text f ≡ some t
      → (decide_admission show t (pos slots) cores).ok ≡ true
      → t.pinning_available ≡ true
      → let granted = (decide_admission show t (pos slots) cores).cores in
        (length granted ≡ slots)
        × IsDistinct granted
        × All (λ c. contains c (online_cpus f) ≡ true) granted
  decide_admission-pins show slots cores {t} h k p =
      let (apart, online) = detect_linux-Spread {t = t} h in
      elim (decide_admission-grants show t slots cores apart k).1 [
        | inl (q, (n, distinct, fast)) ↦ (
          n,
          distinct,
          All-impl _ (λ c. contains c (online_cpus f) ≡ true)
              (λ c e. All-contains (Online text f) t.fast_cores online c e) _ fast,
        )
        | inr (q, _) ↦ absurd (ground arith)
      ]
