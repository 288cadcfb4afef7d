-- ===== src/Apk/Plain/Ends.antt =====
-- The loops over a text manifest end: each round begins behind the tag that the last one found.
use Prim.Native.Nat.{◌≤◌}
use muplar.Base.{ℕ, zero, suc, ◌+◌, ◌-◌, ◌<◌, ◌≢◌, sym, ap, arith, inl, inr, List, ◌∷◌, Option}
use muplar.Base.{length, get_or, Option-cases}
use muplar.Base.Text.{codes}
use muplar.Apk.Find.{find, find_char, substr}
use muplar.Apk.Find.Places.{IsPlace, find_char-IsPlace, find-IsPlace}
use muplar.Apk.Runs.{Runs, gives, Any, Runs-bind}
use muplar.Apk.Plain.{
  candidates_loop, block_end_of, infer_plain_manifest_launch_activity, receivers_loop,
  provider_name, infer_plain_manifest_widget_provider,
}

-- A tag's '<' stands before the '>' that is searched from there.
opens_before :
    (s : List ℕ) (pos start end : ℕ)
    → IsPlace s b'<' pos start
    → IsPlace s b'>' start end
    → start < end
opens_before s pos start end a b = omega (arith, apart)
  where
    apart : start ≢ end
    apart e = omega (arith, sym a.char, b.char, ap (λ (n : ℕ). get_or s n 0) e)

block_end-le :
    (s : List ℕ) (c : ℕ) (text : List ℕ) (open_end behind : ℕ)
    → open_end ≤ block_end_of open_end behind (find s (c ∷ text) open_end)
block_end-le s c text open_end behind = elim (Option-cases (find s (c ∷ text) open_end)) [
  | inl e ↦ rw e (omega arith)
  | inr (k, e) ↦ rw e (let p = find-IsPlace s c text open_end k e in omega (arith, p.from))
]

-- The next round has fuel left, and begins further behind.
next_round :
    (s : List ℕ) (fuel pos start open_end next : ℕ)
    → length s < suc fuel + pos
    → IsPlace s b'<' pos start
    → IsPlace s b'>' start open_end
    → open_end ≤ next
    → (0 < fuel) × (length s < fuel + next)
next_round s fuel pos start open_end next h a b le =
    let lt = opens_before s pos start open_end a b in
    (omega (arith, a.from, a.within), omega (arith, a.from, a.within))

candidates_loop-Runs :
    (fuel : ℕ) (manifest : List ℕ) (package_name : Option (List ℕ)) (pos : ℕ)
    → 0 < fuel
    → length manifest < fuel + pos
    → Runs ⊥ Any (candidates_loop fuel manifest package_name pos)
unfolding candidates_loop
candidates_loop-Runs zero manifest package_name pos more h = absurd (omega arith)
candidates_loop-Runs (suc fuel) manifest package_name pos more h =
    elim (Option-cases (find manifest (codes "<activity") pos)) [
      | inl e ↦ rw (e, candidates_loop) (gives tt)
      | inr (start, e) ↦ elim (Option-cases (find_char manifest b'>' start)) [
        | inl e' ↦ rw (e, candidates_loop, e') (gives tt)
        | inr (open_end, e') ↦
            let next = block_end_of open_end 11 (find manifest (codes "</activity>") open_end) in
            let (fuel_left, further) =
              next_round manifest fuel pos start open_end next h
                (find-IsPlace manifest b'<' (codes "activity") pos start e)
                (find_char-IsPlace manifest b'>' start open_end e')
                (block_end-le manifest b'<' (codes "/activity>") open_end 11) in
            rw (e, candidates_loop, e')
              (Runs-bind (candidates_loop-Runs fuel manifest package_name next fuel_left further)
                λ candidates p. gives tt)
      ]
    ]

receivers_loop-Runs :
    (fuel : ℕ) (manifest : List ℕ) (package_name : Option (List ℕ)) (pos : ℕ)
    → 0 < fuel
    → length manifest < fuel + pos
    → Runs ⊥ Any (receivers_loop fuel manifest package_name pos)
unfolding receivers_loop
receivers_loop-Runs zero manifest package_name pos more h = absurd (omega arith)
receivers_loop-Runs (suc fuel) manifest package_name pos more h =
    elim (Option-cases (find manifest (codes "<receiver") pos)) [
      | inl e ↦ rw (e, receivers_loop) (gives tt)
      | inr (start, e) ↦ elim (Option-cases (find_char manifest b'>' start)) [
        | inl e' ↦ rw (e, receivers_loop, e') (gives tt)
        | inr (open_end, e') ↦
            let end = block_end_of open_end 0 (find manifest (codes "</receiver>") open_end) in
            let le = block_end-le manifest b'<' (codes "/receiver>") open_end 0 in
            let (fuel_left, further) =
              next_round manifest fuel pos start open_end (end + 1) h
                (find-IsPlace manifest b'<' (codes "receiver") pos start e)
                (find_char-IsPlace manifest b'>' start open_end e') (omega arith) in
            let name =
              provider_name package_name (substr manifest start (end - start))
                (substr manifest start (open_end - start + 1)) in
            rw (e, receivers_loop, e')
              (elim (Option-cases name) [
                | inl e'' ↦
                    rw (e'', receivers_loop)
                      (receivers_loop-Runs fuel manifest package_name (end + 1) fuel_left further)
                | inr (s, e'') ↦ rw (e'', receivers_loop) (gives tt)
              ])
      ]
    ]

-- `infer_plain_manifest_launch_activity` and `infer_plain_manifest_widget_provider` end for every
-- text, after at most as many rounds as it has characters and two more.
pub infer_plain_manifest-Runs :
    (manifest : List ℕ) (package_name : Option (List ℕ))
    → Runs ⊥ Any (infer_plain_manifest_launch_activity manifest package_name)
      × Runs ⊥ Any (infer_plain_manifest_widget_provider manifest package_name)
unfolding infer_plain_manifest_launch_activity infer_plain_manifest_widget_provider
infer_plain_manifest-Runs manifest package_name = (
  Runs-bind
      (candidates_loop-Runs (suc (suc (length manifest))) manifest package_name 0 (omega arith)
        (omega arith))
      λ candidates p. gives tt,
  receivers_loop-Runs (suc (suc (length manifest))) manifest package_name 0 (omega arith)
      (omega arith),
)
