-- ===== src/Dpb/RefMods/Named.antt =====
-- internal/h264/simple_dpb.go: the entries that the modifications of a list name.
use goh.Base.{
  All, Bool, List, [], ap, arith, false, if◌then◌else◌, leb, length, length-append, ltb, none, refl,
  some, suc, sym, true, zero, ℕ, ◌++◌, ◌+◌, ◌-◌, ◌<◌, ◌==◌, ◌||◌, ◌∙◌, ◌∷◌, ◌≡◌, ◌≤◌,
}
use goh.Result.{◌>>=◌, ◌>>◌, Result, ok, err, panic, reject, unsupported}
use goh.Dpb.{Dpb, picture_frame}
use goh.Dpb.RefMods.{
  ListHeader, RefEntry, RefModification, drop_same, has_frame, modification, put_entry,
  same_picture, Target, entry_of, max_ref_mods, mods_loop, frame_current_poc, long_target,
  short_target,
}
use mathlib.Core.Path.{subst}
use goh.Avcc.RoundTrip.{framed}
use goh.Dpb.Refs.{pic_num_extract}
use mathlib.Core.List.{append_assoc}

-- The entries that the modifications name, one after the other, whatever the list holds.
unfoldable pub named : ListHeader → Dpb → ℕ → List RefModification → Result (List RefEntry)
named sh d pred [] = ok []
named sh d pred (m ∷ ms) =
    modification sh d pred m >>= λ r. named sh d r.0 ms >>= λ es. ok (r.1 ∷ es)

put_entry-append :
    (front back : List RefEntry) (left : ℕ) (entry : RefEntry)
    → put_entry (length front) left entry (front ++ back)
      ≡ (front ++ (entry ∷ [])) ++ drop_same left entry back
unfolding put_entry
put_entry-append [] back left entry = refl
put_entry-append (x ∷ front) back left entry =
    ap (λ l. x ∷ l) (put_entry-append front back left entry)

length-drop_same :
    (left : ℕ) (entry : RefEntry) (back : List RefEntry)
    → left < length back
    → suc (length (drop_same left entry back)) ≡ length back
length-drop_same left entry [] h = absurd (omega arith)
length-drop_same zero entry (x ∷ xs) h = refl
length-drop_same (suc left) entry (x ∷ xs) h =
    by (same_picture entry x) (length-drop_same left entry xs (omega arith))
  where
    by :
        (test : Bool)
        → suc (length (drop_same left entry xs)) ≡ length xs
        → suc (length (if test then xs else x ∷ drop_same left entry xs)) ≡ length (x ∷ xs)
    by true e = refl
    by false e = ap suc e

bind_inv :
    {A B : Type 0} (r : Result A) (f : A → Result B) (b : B)
    → (r >>= f) ≡ ok b
    → (a : A) × (r ≡ ok a) × (f a ≡ ok b)
bind_inv (ok a) f b h = (a, refl, h)
bind_inv (err e) f b h = cc h
bind_inv panic f b h = cc h

-- What holds of a result, if there is one.
abbrev IfOk : {A : Type 0} → (A → Type 0) → Result A → Type 0
IfOk P (ok a) = P a
IfOk P (err e) = Unit {0}
IfOk P panic = Unit {0}

IfOk-bind :
    {A B : Type 0} (P : B → Type 0) (r : Result A) (f : A → Result B)
    → ((a : A) → IfOk P (f a))
    → IfOk P (r >>= f)
IfOk-bind P (ok a) f h = h a
IfOk-bind P (err e) f h = tt
IfOk-bind P panic f h = tt

abbrev pub IsFramed : RefEntry → Type 0
IsFramed e = has_frame e ≡ true

entry_of-IsFramed : (sh : ListHeader) (d : Dpb) (t : Target) → IfOk IsFramed (entry_of sh d t)
unfolding entry_of
entry_of-IsFramed sh d t =
    elim t.ref as (λ ref. IfOk IsFramed (entry_of sh d (record t { ref = ref }))) [
      | none ↦ tt
      | some f ↦
          IfOk-bind IsFramed
            (frame_current_poc (d.frames f) (
              if sh.picture_structure == picture_frame
              then picture_frame
              else (pic_num_extract sh.picture_structure t.pic_id).1))
            _ (λ poc. refl)
    ]

modification-IsFramed :
    (sh : ListHeader) (d : Dpb) (pred : ℕ) (m : RefModification)
    → IfOk (λ (r : ℕ × RefEntry). IsFramed r.1) (modification sh d pred m)
unfolding modification
modification-IsFramed sh d pred m =
    IfOk-bind (λ (r : ℕ × RefEntry). IsFramed r.1)
      (reject (ltb 2 m.op) unsupported
        >> (if m.op == 2 then long_target sh d pred m.val else short_target sh d pred m))
      _ (λ t. framed t (entry_of sh d t) (entry_of-IsFramed sh d t))
  where
    framed :
        (t : Target) (r : Result RefEntry)
        → IfOk IsFramed r
        → IfOk (λ (r : ℕ × RefEntry). IsFramed r.1) (r >>= λ entry. ok (t.pred, entry))
    framed t (ok e) h = h
    framed t (err e) h = tt
    framed t panic h = tt

pub mods_loop-named :
    (sh : ListHeader) (d : Dpb) (ms : List RefModification) (pred : ℕ)
    (front back es : List RefEntry)
    → length front + length ms ≤ sh.ref_count
    → length front + length ms ≤ max_ref_mods
    → sh.ref_count ≤ length front + length back
    → named sh d pred ms ≡ ok es
    → (rest : List RefEntry) × (mods_loop sh d (length front) pred ms (front ++ back)
        ≡ ok (front ++ (es ++ rest)))
      × (length es ≡ length ms)
      × (length front + length es + length rest ≡ length front + length back)
      × All (λ e. has_frame e ≡ true) es
unfolding mods_loop named
mods_loop-named sh d [] pred front back es fits few long h =
    subst
      (λ x. elim x [
        | ok l ↦
            (rest : List RefEntry) × (ok (front ++ back) ≡ ok (front ++ (l ++ rest)))
            × (length l ≡ 0)
            × (length front + length l + length rest ≡ length front + length back)
            × All (λ e. has_frame e ≡ true) l
        | err e ↦ ⊥
        | panic ↦ ⊥
      ])
      h (back, refl, refl, omega arith, tt)
mods_loop-named sh d (m ∷ ms) pred front back es fits few long h =
    let (r, er, h1) = bind_inv (modification sh d pred m) _ es h in
    let (es', ees, h2) = bind_inv (named sh d r.0 ms) _ es h1 in
    let e : es ≡ r.1 ∷ es' = cc h2 in
    let guard : (leb sh.ref_count (length front) || leb max_ref_mods (length front)) ≡ false =
      ground (arith, fits, few) in
    let grown : length (front ++ (r.1 ∷ [])) ≡ length front + 1 = length-append front (r.1 ∷ []) in
    let left = sh.ref_count - 1 - length front in
    let shorter = length-drop_same left r.1 back (omega arith) in
    let (rest, run, same_length, total, framed) =
      mods_loop-named sh d ms r.0 (front ++ (r.1 ∷ [])) (drop_same left r.1 back) es'
        (omega (arith, grown, fits)) (omega (arith, grown, few))
        (omega (arith, grown, shorter, long)) ees in
    rw (e, guard, er, put_entry-append front back left r.1)
      (
        rest,
        ap (λ n. mods_loop sh d n r.0 ms ((front ++ (r.1 ∷ [])) ++ drop_same left r.1 back))
              (sym grown)
            ∙ run
            ∙ ap ok (append_assoc front (r.1 ∷ []) (es' ++ rest)),
        ap suc same_length,
        omega (arith, total, grown, shorter),
        (
          subst (IfOk (λ (r : ℕ × RefEntry). IsFramed r.1)) er (modification-IsFramed sh d pred m),
          framed,
        ),
      )
