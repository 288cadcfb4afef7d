-- ===== src/Linker/Libs/Relocates.antt =====
-- Relocating the objects always ends, whatever their tables hold.
use muplar.Base.{ℕ, ◌≡◌, ◌⊎◌, inl, inr, List, [], ◌∷◌, ◌&&◌}
use muplar.Memory.{Memory}
use muplar.Linker.{Object, Env, Fatal, Result, ok, fatal, nonzero}
use muplar.Linker.Relr.{apply_relr}
use muplar.Linker.Packed.{apply_android_rela, relocate_object}
use muplar.Linker.Packed.Table.{apply_android_rela-ends}
use muplar.Linker.Load.{Space}
use muplar.Linker.Libs.{relocate_all}
use muplar.Linker.Libs.Loads.{Yields, yields, stops, Yields-bind, Yields-if, Anything}

pub apply_android_rela-Yields :
    (env : Env) (objs : List Object) (obj : Object) (hwcap auxv table size : ℕ) (m : Memory)
    → Yields Anything (apply_android_rela env objs obj hwcap auxv table size m)
apply_android_rela-Yields env objs obj hwcap auxv table size m =
    outcome (apply_android_rela-ends env objs obj hwcap auxv table size m)
  where
    outcome :
        {r : Result Memory}
        → ((m' : Memory) × (r ≡ ok m')) ⊎ ((e : Fatal) × (r ≡ fatal e))
        → Yields Anything r
    outcome (inl (m', e)) = rw e (yields tt)
    outcome (inr (f, e)) = rw e stops

pub relocate_object-Yields :
    (env : Env) (objs : List Object) (obj : Object) (hwcap auxv : ℕ) (m : Memory)
    → Yields Anything (relocate_object env objs obj hwcap auxv m)
unfolding relocate_object
relocate_object-Yields env objs obj hwcap auxv m =
    Yields-bind {P = Anything}
      (Yields-if (nonzero obj.android_rela && nonzero obj.android_rela_size)
        (apply_android_rela-Yields env objs obj hwcap auxv _ _ (apply_relr obj m)) (yields tt))
      λ m2 h. yields tt

pub relocate_all-Yields :
    (env : Env) (objs rest : List Object) (s : Space)
    → Yields Anything (relocate_all env objs rest s)
unfolding relocate_all
relocate_all-Yields env objs [] s = yields tt
relocate_all-Yields env objs (obj ∷ rest) s =
    Yields-bind (relocate_object-Yields env objs obj env.hwcap env.auxv s.mem)
      λ m h. relocate_all-Yields env objs rest _
