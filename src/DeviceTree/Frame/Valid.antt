-- ===== src/DeviceTree/Frame/Valid.antt =====
-- src/DeviceTree.h: what the first pass keeps of its frames, so that it touches nothing outside of them.
use mathlib.Core.Path.{subst}
use floss.Base.{
  true, ◌≢◌, ◌∙◌, ℕ, zero, suc, ◌+◌, ◌-◌, ◌≤◌, ◌<◌, ◌≡◌, refl, inl, inr, List, [], ◌∷◌, length,
  get_or, set, length-set, length-drop, get_or-set_self, get_or-set_ne, get_elem?-eq-get_or, Option,
  none, some, false, not, ◌&&◌, ap, ◌==◌, Bool, Bool-cases, arith, done, ◌>>=◌, store, ltb, lt→ltb,
  ℕ_discrete, drop, replicate,
}
use Prim.Native.String.{String}
use floss.Base.Int.{ℤ, sub_ℕ}
use floss.LibC.{strcmp}
use floss.LibC.Text.{literal, text, text-cons}
use floss.DeviceTree.Blob.{Memory, bytes_from}
use floss.DeviceTree.Blob.Loads.{IsBytes}
use floss.DeviceTree.Frame.{
  opened_node, current, NodeFrame, NodeCells, ParsingFrame, PropFrame, empty_node, empty_prop,
  empty_frames, current, set_current, equals, is_zero, pop_frame, store_prop, max_node_depth,
  max_props_per_node,
}

-- Memory that can be read from address 0 to 24 bytes behind `limit`. A property without a name has
-- the null pointer for it, which both passes compare like any other name.
pub record IsFlat (m : Memory) (limit : ℕ) : Type 0 where
  pub bytes : IsBytes m
  pub from_zero : m.base ≡ 0
  pub slack : limit + 24 ≤ length m.bytes

-- A comparison reads no further than the longer-lived of both strings: up to the literal's NUL.
strcmp-done :
    (s t v : List ℕ) → text t ≡ some v → length v < length s → (z : ℤ) × (strcmp s t ≡ done z)
unfolding strcmp
strcmp-done [] t v h lt = elim lt [ ]
strcmp-done (a ∷ s) [] v h lt = cc h
strcmp-done (a ∷ s) (b ∷ t) v h lt = elim (Bool-cases (not (a == 0) && a == b)) [
  | inr e ↦ (sub_ℕ a b, rw e)
  | inl e ↦
      let (w, ends, cons) = text-cons b t v (λ z. ground arith) h in
      let (z, run) = strcmp-done s t w ends (omega (arith, ap length cons)) in (z, rw e run)
]

pub equals-done :
    {m : Memory} {limit : ℕ} (p : ℕ) (s : String) (v : List ℕ)
    → IsFlat m limit
    → text (literal s) ≡ some v
    → length v < 24
    → p ≤ limit
    → (b : Bool) × (equals m p s ≡ done b)
unfolding equals bytes_from
equals-done {m} {limit} p s v flat ends short le =
    let base : ltb p m.base ≡ false = ground (arith, flat.from_zero) in
    let room : length v < length (drop (p - m.base) m.bytes) =
      omega (arith, length-drop (p - m.base) m.bytes, flat.from_zero, flat.slack) in
    let (z, run) = strcmp-done (drop (p - m.base) m.bytes) (literal s) v ends room in
    (is_zero z, rw (base, run))

abbrev pub PropOk : ℕ → PropFrame → Type 0
PropOk limit p = (p.name ≤ limit) × (p.value + p.len ≤ limit)

abbrev pub IndexOk : Option ℕ → Type 0
IndexOk none = Unit {0}
IndexOk (some i) = i < max_props_per_node

-- The pointers of a node are at most `limit`, and its counters are in bounds.
pub record NodeOk (limit : ℕ) (n : NodeFrame) : Type 0 where
  pub named : n.name ≤ limit
  pub slots : length n.props ≡ max_props_per_node
  pub room : n.nprops < max_props_per_node
  pub props : (k : ℕ) → PropOk limit (get_or n.props k empty_prop)
  pub compatible : IndexOk n.compatible_prop_idx
  pub device_type : IndexOk n.device_type_prop_idx

-- The frame at a position.
abbrev pub frame_at : ParsingFrame → ℕ → NodeFrame
frame_at f i = get_or f.node_frame i empty_node

-- The frames below the current one belong to open nodes.
pub record FramesOk (limit : ℕ) (f : ParsingFrame) : Type 0 where
  pub frames : length f.node_frame ≡ max_node_depth
  pub depth : f.top < max_node_depth
  pub nodes : (i : ℕ) → NodeOk limit (get_or f.node_frame i empty_node)
  pub below : (i : ℕ) → i < f.top → (frame_at f i).opened ≡ true

-- The current one does, too.
abbrev pub InNode : ℕ → ParsingFrame → Type 0
InNode limit f = FramesOk limit f × ((frame_at f f.top).opened ≡ true)

pub store-eq {ℓ} :
    {A : Type ℓ} (xs : List A) (i : ℕ) (v : A) → i < length xs → store xs i v ≡ done (set xs i v)
store-eq xs i v h = rw (lt→ltb i (length xs) h, store)

module _ (limit : ℕ) where
  -- What the cells of a node and its parent are does not matter.
  pub with_cells-NodeOk :
      (n : NodeFrame) (from own : NodeCells) (parent : Option ℕ)
      → NodeOk limit n
      → NodeOk limit (record n { parent_cells = from; own_cells = own; parent = parent })
  with_cells-NodeOk n from own parent ok = record {
    named = ok.named;
    slots = ok.slots;
    room = ok.room;
    props = ok.props;
    compatible = ok.compatible;
    device_type = ok.device_type;
  }

  pub restarted-NodeOk :
      (n : NodeFrame) (name : ℕ)
      → NodeOk limit n
      → name ≤ limit
      → NodeOk limit (record n { name = name; nprops = 0; opened = true })
  restarted-NodeOk n name ok le = record {
    named = le;
    slots = ok.slots;
    room = omega arith;
    props = ok.props;
    compatible = ok.compatible;
    device_type = ok.device_type;
  }

  pub counted-NodeOk :
      (n : NodeFrame) (k : ℕ)
      → NodeOk limit n
      → k < max_props_per_node
      → NodeOk limit (record n { nprops = k })
  counted-NodeOk n k ok lt = record {
    named = ok.named;
    slots = ok.slots;
    room = lt;
    props = ok.props;
    compatible = ok.compatible;
    device_type = ok.device_type;
  }

  pub current-NodeOk :
      (f : ParsingFrame)
      → FramesOk limit f
      → (n : NodeFrame) × (current f ≡ done n)
        × NodeOk limit n
        × (n.opened ≡ (frame_at f f.top).opened)
  unfolding current
  current-NodeOk f ok = (
    get_or f.node_frame f.top empty_node,
    rw (get_elem?-eq-get_or f.node_frame f.top empty_node (omega (arith, ok.frames, ok.depth))),
    ok.nodes f.top,
    refl,
  )

  pub opened_node-NodeOk :
      (f : ParsingFrame)
      → InNode limit f
      → (n : NodeFrame) × (opened_node f ≡ done n) × NodeOk limit n × (n.opened ≡ true)
  unfolding opened_node
  opened_node-NodeOk f (ok, here) =
      let (n, e, nok, same) = current-NodeOk f ok in
      let given = same ∙ here in (n, rw (e, given), nok, given)

  pub set_current-FramesOk :
      (f : ParsingFrame) (n : NodeFrame)
      → FramesOk limit f
      → NodeOk limit n
      → (f' : ParsingFrame) × (set_current f n ≡ done f')
        × FramesOk limit f'
        × ((frame_at f' f'.top).opened ≡ n.opened)
  unfolding set_current
  set_current-FramesOk f n ok nok =
      let small : f.top < length f.node_frame = omega (arith, ok.frames, ok.depth) in
      (
        record f { node_frame = set f.node_frame f.top n },
        ap (λ r. r >>= λ frames. done (record f { node_frame = frames }))
            (store-eq f.node_frame f.top n small),
        record {
          frames = omega (arith, ok.frames, length-set f.node_frame f.top n);
          depth = ok.depth;
          nodes = λ i. elim (ℕ_discrete f.top i) [
            | yes e ↦
                subst (λ k. NodeOk limit (get_or (set f.node_frame f.top n) k empty_node)) e
                  (rw (get_or-set_self f.node_frame f.top n empty_node small) nok)
            | no ne ↦ rw (get_or-set_ne f.node_frame n empty_node ne) (ok.nodes i)
          ];
          below = λ i lt.
              let ne : f.top ≢ i = λ e. omega (arith, e) in
              rw (get_or-set_ne f.node_frame n empty_node ne) (ok.below i lt);
        },
        rw (get_or-set_self f.node_frame f.top n empty_node small),
      )

  -- Another frame of the same array.
  pub deeper :
      (f : ParsingFrame) (top : ℕ)
      → FramesOk limit f
      → top < max_node_depth
      → ((i : ℕ) → i < top → (frame_at f i).opened ≡ true)
      → FramesOk limit (record f { top = top })
  deeper f top ok lt given = record {
    frames = ok.frames;
    depth = lt;
    nodes = ok.nodes;
    below = given;
  }

  -- Where the current node is open, the frames below the next one are.
  pub all_open :
      (f : ParsingFrame) (i : ℕ) → InNode limit f → i ≤ f.top → (frame_at f i).opened ≡ true
  all_open f i (ok, here) le = elim (ℕ_discrete f.top i) [
    | yes e ↦ subst (λ k. (frame_at f k).opened ≡ true) e here
    | no ne ↦ ok.below i (omega arith)
  ]

  popped :
      (f : ParsingFrame) (top : ℕ)
      → f.top ≡ top
      → InNode limit f
      → InNode limit (elim top [ zero ↦ f | suc below ↦ record f { top = below } ])
  popped f zero e ok = ok
  popped f (suc top) e (ok, here) = (
    record {
      frames = ok.frames;
      depth = omega (arith, ok.depth);
      nodes = ok.nodes;
      below = λ i lt. ok.below i (omega arith);
    },
    ok.below top (omega arith),
  )

  pub pop_frame-InNode : (f : ParsingFrame) → InNode limit f → InNode limit (pop_frame f)
  unfolding pop_frame
  pop_frame-InNode f ok = popped f f.top refl ok

  pub store_prop-NodeOk :
      (n : NodeFrame) (p : PropFrame)
      → NodeOk limit n
      → PropOk limit p
      → (n' : NodeFrame) × (store_prop n p ≡ done n')
        × NodeOk limit n'
        × (n'.nprops ≡ n.nprops)
        × (n'.opened ≡ n.opened)
  unfolding store_prop
  store_prop-NodeOk n p ok pok =
      let small : n.nprops < length n.props = omega (arith, ok.slots, ok.room) in
      (
        record n { props = set n.props n.nprops p },
        ap (λ r. r >>= λ props. done (record n { props = props }))
            (store-eq n.props n.nprops p small),
        record {
          named = ok.named;
          slots = omega (arith, ok.slots, length-set n.props n.nprops p);
          room = ok.room;
          props = λ k. elim (ℕ_discrete n.nprops k) [
            | yes e ↦
                subst (λ i. PropOk limit (get_or (set n.props n.nprops p) i empty_prop)) e
                  (rw (get_or-set_self n.props n.nprops p empty_prop small) pok)
            | no ne ↦ rw (get_or-set_ne n.props p empty_prop ne) (ok.props k)
          ];
          compatible = ok.compatible;
          device_type = ok.device_type;
        },
        refl,
        refl,
      )

pub get_or-replicate {ℓ} : {A : Type ℓ} (n k : ℕ) (a : A) → get_or (replicate n a) k a ≡ a
get_or-replicate zero k a = refl
get_or-replicate (suc n) zero a = refl
get_or-replicate (suc n) (suc k) a = get_or-replicate n k a

empty_node-NodeOk : (limit : ℕ) → NodeOk limit empty_node
empty_node-NodeOk limit = record {
  named = omega arith;
  slots = refl;
  room = omega arith;
  props = λ k. rw (get_or-replicate max_props_per_node k empty_prop) (omega arith);
  compatible = tt;
  device_type = tt;
}

pub empty_frames-FramesOk : (limit : ℕ) → FramesOk limit empty_frames
empty_frames-FramesOk limit = record {
  frames = refl;
  depth = omega arith;
  nodes = λ i. rw (get_or-replicate max_node_depth i empty_node) (empty_node-NodeOk limit);
  below = λ i lt. elim lt [ ];
}
