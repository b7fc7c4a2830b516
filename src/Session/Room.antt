-- ===== src/Session/Room.antt =====
-- Counting the entries that are stored and those that wait.
use bdr.Common.{
  ◌+◌, ◌≤◌, ◌≡◌, refl, sym, ◌∙◌, ap, arith, List, [], ◌∷◌, ◌++◌, length, All, length-append,
}
use mathlib.Core.List.{append_assoc}
use bdr.Networking.{Extent}
use bdr.Device.Overlays.{trimmed}
use bdr.Header.{Header}
use bdr.Replica.Intake.{Entry, block, write, blocks_of, writes_of, IsStorable}

-- Room for the entries, and no overflow.
pub record HasRoom (h : Header) (bs ws : List Extent) (es : List Entry) : Type 0 where
  pub storable : All (IsStorable h) es
  pub blocks : length bs + length (blocks_of es) ≤ h.corr_blocks_count
  pub writes : length ws + length (writes_of es) ≤ h.buf_writes_count

pub blocks_of-append : (es fs : List Entry) → blocks_of (es ++ fs) ≡ blocks_of es ++ blocks_of fs
blocks_of-append [] fs = refl
blocks_of-append (block x ∷ es) fs = ap (◌∷◌ (trimmed x)) (blocks_of-append es fs)
blocks_of-append (write x ∷ es) fs = blocks_of-append es fs

pub writes_of-append : (es fs : List Entry) → writes_of (es ++ fs) ≡ writes_of es ++ writes_of fs
writes_of-append [] fs = refl
writes_of-append (block x ∷ es) fs = writes_of-append es fs
writes_of-append (write x ∷ es) fs = ap (◌∷◌ (trimmed x)) (writes_of-append es fs)

-- The parts of the room that the first entry and the others take.
pub HasRoom-cons :
    (h : Header) (bs ws : List Extent) (e : Entry) (es : List Entry)
    → HasRoom h bs ws (e ∷ es)
    → HasRoom h bs ws (e ∷ []) × HasRoom h (bs ++ blocks_of (e ∷ [])) (ws ++ writes_of (e ∷ [])) es
HasRoom-cons h bs ws e es r =
    let eb =
      ap length (blocks_of-append (e ∷ []) es)
      ∙ length-append (blocks_of (e ∷ [])) (blocks_of es) in
    let ew =
      ap length (writes_of-append (e ∷ []) es)
      ∙ length-append (writes_of (e ∷ [])) (writes_of es) in
    let nb = length-append bs (blocks_of (e ∷ [])) in
    let nw = length-append ws (writes_of (e ∷ [])) in
    (
      record {
        storable = (r.storable.0, tt);
        blocks = omega (arith, r.blocks, eb);
        writes = omega (arith, r.writes, ew);
      },
      record {
        storable = r.storable.1;
        blocks = omega (arith, r.blocks, eb, nb);
        writes = omega (arith, r.writes, ew, nw);
      },
    )

-- The entries behind the first, in the same total.
pub total_blocks :
    (bs : List Extent) (e : Entry) (es : List Entry) (all_b : List Extent)
    → bs ++ blocks_of (e ∷ es) ≡ all_b
    → (bs ++ blocks_of (e ∷ [])) ++ blocks_of es ≡ all_b
total_blocks bs e es all_b t =
    append_assoc bs (blocks_of (e ∷ [])) (blocks_of es)
    ∙ ap (λ x. bs ++ x) (sym (blocks_of-append (e ∷ []) es))
    ∙ t

pub total_writes :
    (ws : List Extent) (e : Entry) (es : List Entry) (all_w : List Extent)
    → ws ++ writes_of (e ∷ es) ≡ all_w
    → (ws ++ writes_of (e ∷ [])) ++ writes_of es ≡ all_w
total_writes ws e es all_w t =
    append_assoc ws (writes_of (e ∷ [])) (writes_of es)
    ∙ ap (λ x. ws ++ x) (sym (writes_of-append (e ∷ []) es))
    ∙ t
