-- ===== src/Mrs/Trie/Streamed.antt =====
-- Streaming and reading a list of domains of internal/rules/parse_mrs.go.
use mathlib.Core.List.{reverse, map-append}
use purewrt.Prelude.{
  ℕ, zero, suc, ◌+◌, ◌-◌, ◌≡◌, refl, sym, ap, subst, ◌∙◌, List, [], ◌∷◌, map, length, Option, none,
  some, ok, >>=-ok, ok-injective, ltb, leb, ◌||◌, if◌then◌else◌, Bool, Bool-cases, inl, inr, true,
  false,
}
use purewrt.Mrs.Reader.{Bytes, MrsError, invalid_label_index, invalid_bitmap_index, depth_limit}
use purewrt.Mrs.Stream.{Stopped, refused, call, emit_all, and_then, emit_all-append}
use purewrt.Mrs.Trie.{
  MrsTrie, RankSelect, build_rank_select, read_mrs_trie_raw, bit_at, Walk, walk_on, go_deeper,
  walk_children, walk_node, walk_mrs_trie, collect, walked, read_mrs_domains, trim_wildcard, noted,
  stream_visit, close_walk, stream_mrs_domains,
}
use purewrt.Mrs.Trie.Grows.{
  Grows, walked-ok, Grows-trans, collect-Grows, Descend, Adds, walk_children-Adds, walk_node-Adds,
}

module _ {S E : Type 0} (emit : Option (S → Bytes → S × Option E)) (start : S) where
  -- What the callback has done with the domains that are collected so far.
  run : List Bytes → S × Option (Stopped E)
  run out = emit_all (call emit) start (map trim_wildcard out)

  view : S × Option E → S × Option (Stopped E)
  view (s, none) = (s, none)
  view (s, some failure) = (s, some (refused failure))

  -- Where the callback has refused a domain, later ones change nothing.
  run-Grows :
      (s : S) (failure : E) (out out' : List Bytes)
      → view (s, some failure) ≡ run out
      → Grows out out'
      → view (s, some failure) ≡ run out'
  unfolding run view Grows
  run-Grows s failure out out' h (ds, e) =
      rw (e, map-append trim_wildcard out ds)
        (sym (
          emit_all-append (call emit) start (map trim_wildcard out) (map trim_wildcard ds)
          ∙ ap (λ r. and_then r (λ s'. emit_all (call emit) s' (map trim_wildcard ds))) (sym h)))

  run-visit :
      (t : MrsTrie) (s : S) (out : List Bytes) (node : ℕ) (current : Bytes)
      → view (s, none) ≡ run out
      → view (stream_visit emit t (s, none) node current).0 ≡ run (collect t out node current).0
  unfolding run view
  run-visit t s out node current h = elim (Bool-cases (bit_at t.leaves node)) [
    | inr e ↦ rw e h
    | inl e ↦
        rw (e, map-append trim_wildcard out (reverse current ∷ []))
          (called (call emit s (trim_wildcard (reverse current))) refl
            ∙ ap
                (λ r.
                  and_then r (λ s'. emit_all (call emit) s' (trim_wildcard (reverse current) ∷ [])))
                h
            ∙ sym (
                emit_all-append (call emit) start (map trim_wildcard out)
                  (trim_wildcard (reverse current) ∷ [])))
  ]
    where
      called :
          (r : S × Option E)
          → call emit s (trim_wildcard (reverse current)) ≡ r
          → view (noted emit r).0 ≡ emit_all (call emit) s (trim_wildcard (reverse current) ∷ [])
      called (s', none) e = unfold emit_all in rw e refl
      called (s', some failure) e = unfold emit_all in rw e refl

module _ {S E : Type 0} (emit : Option (S → Bytes → S × Option E)) (start : S) where
  -- Where the first walk ends well, so does the second, and both have done the same.
  SameEnd : Walk (List Bytes) → Walk (S × Option E) → Type 0
  SameEnd w w' =
      (out : List Bytes)
      → w ≡ (out, none)
      → (st : S × Option E) × (w' ≡ (st, none)) × (view emit start st ≡ run emit start out)

  failed-SameEnd :
      (o : List Bytes) (failure : MrsError) (w' : Walk (S × Option E))
      → SameEnd (o, some failure) w'
  unfolding SameEnd
  failed-SameEnd o failure w' out h = cc

  done-SameEnd :
      (o : List Bytes) (st : S × Option E)
      → view emit start st ≡ run emit start o
      → SameEnd (o, none) (st, none)
  unfolding SameEnd
  done-SameEnd o st v out h = (st, refl, v ∙ ap (run emit start) (ap (λ w. w.0) h))

  if-SameEnd :
      (test : Bool) (v w : Walk (List Bytes)) (v' w' : Walk (S × Option E))
      → SameEnd v v'
      → SameEnd w w'
      → SameEnd (if test then v else w) (if test then v' else w')
  if-SameEnd true v w v' w' g h = g
  if-SameEnd false v w v' w' g h = h

  walk_on-SameEnd :
      (w : Walk (List Bytes)) (w' : Walk (S × Option E)) (next : List Bytes → Walk (List Bytes))
      (next' : S × Option E → Walk (S × Option E))
      → SameEnd w w'
      → ((o : List Bytes) (st : S × Option E)
          → view emit start st ≡ run emit start o
          → SameEnd (next o) (next' st))
      → SameEnd (walk_on w next) (walk_on w' next')
  unfolding SameEnd
  walk_on-SameEnd (o, some failure) w' next next' g h out e = cc
  walk_on-SameEnd (o, none) w' next next' g h out e =
      let (st, ended, v) = g o refl in rw ended (h o st v out e)

  module _ (t : MrsTrie) (tables : RankSelect) where
    abbrev Same : Descend t tables (List Bytes) → Descend t tables (S × Option E) → Type 0
    Same d d' =
        (n b : ℕ) (current : Bytes) (out : List Bytes) (st : S × Option E)
        → view emit start st ≡ run emit start out
        → SameEnd (d n b current out) (d' n b current st)

    walk_children-Same :
        (d : Descend t tables (List Bytes)) (d' : Descend t tables (S × Option E)) (rounds : ℕ)
        → Same d d'
        → Same
            (walk_children t tables (collect t) d rounds)
            (walk_children t tables (stream_visit emit t) d' rounds)
    unfolding walk_children
    walk_children-Same d d' zero a n b current out st v = failed-SameEnd out invalid_label_index _
    walk_children-Same d d' (suc rounds) a n b current out st v =
        if-SameEnd (bit_at t.label_bitmap b) _ _ _ _ (done-SameEnd out st v) (
          if-SameEnd (ltb b n || leb (length t.labels) (b - n)) _ _ _ _
            (failed-SameEnd out invalid_label_index _)
            (walk_on-SameEnd _ _ _ _ (a _ _ _ out st v)
              (λ o st' v'. walk_children-Same d d' rounds a n (b + 1) current o st' v')))

    -- After a refusal the second walk stands still, and the first only adds domains.
    stopped-SameEnd :
        (w : Walk (List Bytes)) (out : List Bytes) (s : S) (failure : E)
        → view emit start (s, some failure) ≡ run emit start out
        → Grows out w.0
        → SameEnd w ((s, some failure), none)
    unfolding SameEnd
    stopped-SameEnd w out s failure v g o h = (
      (s, some failure),
      refl,
      run-Grows emit start s failure out o v (subst (λ r. Grows out r.0) h g),
    )

    stream_visit-kept :
        (s : S) (n : ℕ) (current : Bytes)
        → (stream_visit emit t (s, none) n current).1 ≡ false
        → (s' : S) × (failure : E) × ((stream_visit emit t (s, none) n current).0
            ≡ (s', some failure))
    stream_visit-kept s n current h = elim (Bool-cases (bit_at t.leaves n)) [
      | inl e ↦ rw e (noted_case (call emit s (trim_wildcard (reverse current))) (rw e at h))
      | inr e ↦ cc (rw e at h)
    ]
      where
        noted_case :
            (r : S × Option E)
            → (noted emit r).1 ≡ false
            → (s' : S) × (failure : E) × ((noted emit r).0 ≡ (s', some failure))
        noted_case (s', none) k = cc
        noted_case (s', some failure) k = (s', failure, refl)

    deeper :
        (d : Descend t tables (List Bytes)) (d' : Descend t tables (S × Option E)) (n b : ℕ)
        (current : Bytes) (out : List Bytes) (r : (S × Option E) × Bool)
        → (r.1 ≡ false → (s : S) × (failure : E) × (r.0 ≡ (s, some failure)))
        → Adds t tables d
        → view emit start r.0 ≡ run emit start out
        → ((st : S × Option E)
            → view emit start st ≡ run emit start out
            → SameEnd (walk_children t tables (collect t) d (length t.labels + 1) n b current out) (
                walk_children t tables
                  (stream_visit emit t)
                  d'
                  (length t.labels + 1)
                  n
                  b
                  current
                  st))
        → SameEnd (walk_children t tables (collect t) d (length t.labels + 1) n b current out) (
            go_deeper r (λ st.
              walk_children t tables (stream_visit emit t) d' (length t.labels + 1) n b current st))
    deeper d d' n b current out (st, true) k a v next = next st v
    deeper d d' n b current out (st, false) k a v next =
        let (s, failure, e) = k refl in
        rw e (
          stopped-SameEnd _ out s failure (sym (ap (view emit start) e) ∙ v)
            (walk_children-Adds t tables d (length t.labels + 1) a n b current out))

    walk_node-Same :
        (levels : ℕ)
        → Same
            (walk_node t tables (collect t) levels)
            (walk_node t tables (stream_visit emit t) levels)
    unfolding walk_node
    walk_node-Same zero n b current out st v = failed-SameEnd out depth_limit _
    walk_node-Same (suc levels) n b current out (s, some failure) v =
        if-SameEnd (leb tables.bits_len b) _ _ _ _ (failed-SameEnd out invalid_bitmap_index _) (
          stopped-SameEnd _ out s failure v (
            Grows-trans out _ _ (collect-Grows t out n current) (
              walk_children-Adds t tables (walk_node t tables (collect t) levels)
                (length t.labels + 1) (walk_node-Adds t tables levels) n b current
                (collect t out n current).0)))
    walk_node-Same (suc levels) n b current out (s, none) v =
        if-SameEnd (leb tables.bits_len b) _ _ _ _ (failed-SameEnd out invalid_bitmap_index _) (
          deeper (walk_node t tables (collect t) levels)
            (walk_node t tables (stream_visit emit t) levels) n b current
            (collect t out n current).0 (stream_visit emit t (s, none) n current)
            (stream_visit-kept s n current) (walk_node-Adds t tables levels)
            (run-visit emit start t s out n current v)
            (λ st v'.
              walk_children-Same (walk_node t tables (collect t) levels)
                (walk_node t tables (stream_visit emit t) levels) (length t.labels + 1)
                (walk_node-Same levels) n b current (collect t out n current).0 st v'))

  trie-SameEnd :
      (t : MrsTrie)
      → SameEnd
          (walk_mrs_trie t (collect t) [])
          (walk_mrs_trie t (stream_visit emit t) (start, none))
  unfolding walk_mrs_trie
  trie-SameEnd t =
      walk_node-Same t (build_rank_select t.label_bitmap) 1025 0 0 [] [] (start, none)
        (unfold view run emit_all in refl)

  close_walk-view : (st : S × Option E) → close_walk emit (st, none) ≡ view emit start st
  unfolding view
  close_walk-view (s, none) = refl
  close_walk-view (s, some failure) = refl

  -- Streaming a list of domains that reads well gives the callback, in the order of the trie, the
  -- domains that reading without sorting returns, each without its `+.`, up to the first that the
  -- callback refuses, and ends with that refusal or well.
  pub stream_mrs_domains-read :
      (r : Bytes) (ds : List Bytes)
      → read_mrs_domains false r ≡ ok ds
      → stream_mrs_domains emit start r ≡ emit_all (call emit) start (map trim_wildcard ds)
  unfolding stream_mrs_domains read_mrs_domains SameEnd run
  stream_mrs_domains-read r ds h =
      let (t, e, h1) = >>=-ok (read_mrs_trie_raw r) _ h in
      let (out, f, h2) = >>=-ok (walked (walk_mrs_trie t (collect t) [])) _ h1 in
      let (st, g, v) = trie-SameEnd t out (walked-ok _ out f) in
      rw (e, g) (close_walk-view st ∙ v ∙ ap (run emit start) (ok-injective h2))
