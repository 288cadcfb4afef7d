-- ===== src/Apk/Activities/Safe.antt =====
-- The searches for an activity and a widget provider stay inside of a binary manifest, and end unless
-- it has a chunk of size 0.
use Prim.Native.Nat.{◌≤◌}
use muplar.Base.{ℕ, ◌+◌, arith, inr, List, [], Option, none}
use muplar.Base.{Bool, true, false, not, ◌&&◌, ◌==◌, ltb, if◌then◌else◌, length, get_or}
use muplar.Base.Text.{codes}
use muplar.Apk.Find.{same, is_some}
use muplar.Apk.Attribute.{holds}
use muplar.Apk.Runs.{Runs, gives, Any, Runs-bind, Runs-if, read_u32-Runs}
use muplar.Apk.Chunks.{Chunk, continue, return_with, enough}
use muplar.Apk.Chunks.Ends.{EmptyChunk, Each, chunk_loop-Runs, first_chunk-Runs}
use muplar.Apk.Axml.Safe.{axml_string_pool-Runs}
use muplar.Apk.Binary.{string_value, res_xml_start_element_type, res_xml_end_element_type}
use muplar.Apk.Binary.Safe.{string_value-Reads, element_attribute-Runs}
use muplar.Apk.Activities.{
  Launching, launch_start, launch_visit, no_activity, infer_binary_manifest_launch_activity,
  widget_start, widget_visit, infer_binary_manifest_widget_provider,
}

module _ {Spins : Type 0} (manifest : List ℕ) (strings : List (List ℕ))
    (package_name : Option (List ℕ)) where
  launch_start-Runs :
      (c : Chunk) (element : List ℕ) (s : Launching)
      → c.off + c.size ≤ length manifest
      → Runs Spins Any (launch_start manifest strings package_name c element s)
  unfolding launch_start
  launch_start-Runs c element s h =
      let read =
        element_attribute-Runs string_value string_value-Reads manifest strings c (codes "name")
          h in
      Runs-if (same element (codes "activity")) (λ a. Runs-bind read λ name h0. gives tt)
        λ b.
          Runs-if (is_some s.current_activity && same element (codes "action"))
            (λ a.
              Runs-if s.has_main_action (λ known. gives tt)
                (λ unknown. Runs-bind read λ action h0. gives tt))
            λ b'.
              Runs-if (is_some s.current_activity && same element (codes "category"))
                (λ a. Runs-bind read λ category h0. gives tt) (λ b''. gives tt)

  launch_visit-Runs :
      (c : Chunk) (s : Launching)
      → c.off + c.size ≤ length manifest
      → Runs Spins (Each Any Any) (launch_visit manifest strings package_name c s)
  unfolding launch_visit
  launch_visit-Runs c s h =
      Runs-if (c.type == res_xml_start_element_type && not (ltb (length manifest) (c.off + 36)))
        (λ start. Runs-bind (read_u32-Runs manifest (c.off + 20)) λ name_idx h0.
          Runs-bind (launch_start-Runs c (get_or strings name_idx []) s h) λ s' h1. gives tt)
        λ other.
          Runs-if (c.type == res_xml_end_element_type && not (ltb (length manifest) (c.off + 24)))
            (λ end. Runs-bind (read_u32-Runs manifest (c.off + 20)) λ name_idx h0. gives tt)
            (λ other'. gives tt)

  widget_start-Runs :
      (c : Chunk) (element : List ℕ) (receiver : Option (List ℕ))
      → c.off + c.size ≤ length manifest
      → Runs Spins (Each Any Any) (widget_start manifest strings package_name c element receiver)
  unfolding widget_start
  widget_start-Runs c element receiver h =
      let read =
        element_attribute-Runs string_value string_value-Reads manifest strings c (codes "name")
          h in
      Runs-if (same element (codes "receiver")) (λ a. Runs-bind read λ name h0. gives tt)
        λ b.
          Runs-if (is_some receiver && same element (codes "action"))
            (λ a. Runs-bind read λ action h0.
              gives (either (holds action (codes "android.appwidget.action.APPWIDGET_UPDATE"))))
            (λ b'. gives tt)
    where
      either :
          (b : Bool)
          → Each {S = Option (List ℕ)} {B = Option (List ℕ)} Any Any
              (if b then return_with receiver else continue receiver)
      either true = tt
      either false = tt

  widget_visit-Runs :
      (c : Chunk) (receiver : Option (List ℕ))
      → c.off + c.size ≤ length manifest
      → Runs Spins (Each Any Any) (widget_visit manifest strings package_name c receiver)
  unfolding widget_visit
  widget_visit-Runs c receiver h =
      Runs-if (c.type == res_xml_start_element_type && not (ltb (length manifest) (c.off + 36)))
        (λ start.
          Runs-bind (read_u32-Runs manifest (c.off + 20))
            λ name h0. widget_start-Runs c (get_or strings name []) receiver h)
        λ other.
          Runs-if (c.type == res_xml_end_element_type && not (ltb (length manifest) (c.off + 24)))
            (λ end. Runs-bind (read_u32-Runs manifest (c.off + 20)) λ name h0. gives tt)
            (λ other'. gives tt)

-- `infer_binary_manifest_launch_activity` and `infer_binary_manifest_widget_provider` read nothing
-- outside of the manifest, whatever its bytes are: they throw or return, unless there is a chunk of
-- size 0.
pub infer_binary_manifest_activities-Runs :
    (manifest : List ℕ) (package_name : Option (List ℕ))
    → Runs (EmptyChunk manifest) Any (infer_binary_manifest_launch_activity manifest package_name)
      × Runs (EmptyChunk manifest) Any (infer_binary_manifest_widget_provider manifest package_name)
unfolding infer_binary_manifest_launch_activity infer_binary_manifest_widget_provider
infer_binary_manifest_activities-Runs manifest package_name = (
  Runs-bind (axml_string_pool-Runs manifest) λ strings h.
      Runs-if (length strings == 0) (λ none_there. gives tt)
        λ some_there. Runs-bind (first_chunk-Runs manifest) λ off h0.
          Runs-bind
            (chunk_loop-Runs manifest 8 (length manifest)
              (launch_visit manifest strings package_name) Any Any (enough manifest) off no_activity
              (λ c s reached reads lo hi head i.
                launch_visit-Runs manifest strings package_name c s hi)
              (omega arith) h0.fits h0.reached (inr (omega arith)) tt)
            λ next h1. gives tt,
  Runs-bind (axml_string_pool-Runs manifest) λ strings h.
      Runs-if (length strings == 0) (λ none_there. gives tt)
        λ some_there. Runs-bind (first_chunk-Runs manifest) λ off h0.
          Runs-bind
            (chunk_loop-Runs manifest 8 (length manifest)
              (widget_visit manifest strings package_name) Any Any (enough manifest) off none
              (λ c s reached reads lo hi head i.
                widget_visit-Runs manifest strings package_name c s hi)
              (omega arith) h0.fits h0.reached (inr (omega arith)) tt)
            λ next h1. gives tt,
)
