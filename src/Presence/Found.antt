-- ===== src/Presence/Found.antt =====
-- What CellById and Cells find, by what consul holds.
use rep.Base.{
  String, ◌==◌, eq_iff, false, List, [], ◌∷◌, Option, none, some, ◌≡◌, ◌≢◌, refl, ◌∙◌, ap, subst,
  ◌↔◌, ◌⊎◌, inl, inr, Memᴰ, arith,
}
use rep.Base.Tests.{if◌then◌else◌, Bool-cases}
use rep.Base.GoMap.{GoMap, put, lookup, lookup-put}
use rep.Base.Result.{Result, ok, err, Result-cases}
use rep.Maintainer.{CellPresence}
use rep.Presence.{
  ConsulError, KvPair, Consul, cell_schema_path, cell_schema_root, acquired, get_acquired_value,
  decoded_presence, cell_by_id, add_decoded, add_cells, list_error, listed_cells, cells,
}

not_in_nil : (cell_id : String) (presence : CellPresence) → lookup cell_id [] ≢ some presence
unfolding lookup
not_in_nil cell_id presence h = cc

put-lookup :
    (cell_id : String) (presence p : CellPresence) (found : GoMap CellPresence)
    → lookup cell_id (put p.cell_id p found) ≡ some presence
    → (lookup cell_id found ≡ some presence) ⊎ ((p ≡ presence) × (presence.cell_id ≡ cell_id))
put-lookup cell_id presence p found h = elim (Bool-cases (p.cell_id == cell_id)) [
  | inl same ↦
      let is : p ≡ presence = ground (arith, lookup-put p.cell_id cell_id p found, same, h) in
      inr (is, subst (λ x. x.cell_id ≡ cell_id) is ((eq_iff p.cell_id cell_id).0 same))
  | inr apart ↦ inl (ground (arith, lookup-put p.cell_id cell_id p found, apart, h))
]

put-kept :
    (cell_id : String) (p : CellPresence) (found : GoMap CellPresence)
    → lookup cell_id found ≢ none
    → lookup cell_id (put p.cell_id p found) ≢ none
put-kept cell_id p found there = ground (arith, lookup-put p.cell_id cell_id p found)

module _ (consul : Consul) where
  -- A pair that a session holds, with a value that decodes to the presence.
  pub record Announces (pair : KvPair) (presence : CellPresence) : Type 0 where
    pub held : (pair.session == "") ≡ false
    pub decodes : consul.from_json pair.value ≡ ok presence

  -- The pair behind a value that CellById decodes.
  at_key :
      (key : String) (presence : CellPresence) (reply : Result ConsulError (Option KvPair))
      → consul.get key ≡ reply
      → (value : String) × (get_acquired_value consul key ≡ ok value)
        × (consul.from_json value ≡ ok presence)
      → (pair : KvPair) × (consul.get key ≡ ok (some pair)) × Announces pair presence
  unfolding get_acquired_value acquired
  at_key key presence (err e) got (value, h, d) = absurd (ground (arith, got))
  at_key key presence (ok none) got (value, h, d) = absurd (ground (arith, got))
  at_key key presence (ok (some pair)) got (value, h, d) =
      (pair, got, record { held = ground (arith, got); decodes = ground (arith, got) })

  -- CellById returns a presence exactly if consul holds, at the path of the id, a pair that announces it.
  pub cell_by_id_iff :
      (cell_id : String) (presence : CellPresence)
      → (cell_by_id consul cell_id ≡ ok presence) ↔ (
          (pair : KvPair) × (consul.get (cell_schema_path consul cell_id) ≡ ok (some pair))
          × Announces pair presence)
  unfolding cell_by_id get_acquired_value acquired decoded_presence
  cell_by_id_iff cell_id presence =
      let key = cell_schema_path consul cell_id in
      (
        λ h. at_key key presence (consul.get key) refl (ground arith),
        λ (pair, got, announces). ground (arith, got, announces.held, announces.decodes),
      )

  -- Some pair announces the presence.
  abbrev pub Announced : CellPresence → List KvPair → Type 0
  Announced presence pairs = (pair : KvPair) × Memᴰ pair pairs × Announces pair presence

  -- One round of the loop.
  abbrev add_cell : KvPair → GoMap CellPresence → GoMap CellPresence
  add_cell pair found =
      if pair.session == "" then found else add_decoded consul (consul.from_json pair.value) found

  add_cell-lookup :
      (cell_id : String) (presence : CellPresence) (pair : KvPair) (found : GoMap CellPresence)
      → lookup cell_id (add_cell pair found) ≡ some presence
      → (lookup cell_id found ≡ some presence)
        ⊎ (Announces pair presence × (presence.cell_id ≡ cell_id))
  unfolding add_decoded
  add_cell-lookup cell_id presence pair found h = elim (Bool-cases (pair.session == "")) [
    | inl free ↦ inl (rw free at h)
    | inr held ↦ elim (Result-cases (consul.from_json pair.value)) [
      | inl (p, decodes) ↦ elim (put-lookup cell_id presence p found (rw (held, decodes) at h)) [
        | inl earlier ↦ inl earlier
        | inr (same, at_id) ↦ inr (record { held = held; decodes = decodes ∙ ap ok same }, at_id)
      ]
      | inr (e, fails) ↦ inl (rw (held, fails) at h)
    ]
  ]

  add_cell-kept :
      (cell_id : String) (pair : KvPair) (found : GoMap CellPresence)
      → lookup cell_id found ≢ none
      → lookup cell_id (add_cell pair found) ≢ none
  unfolding add_decoded
  add_cell-kept cell_id pair found there = elim (Bool-cases (pair.session == "")) [
    | inl free ↦ rw free there
    | inr held ↦ elim (Result-cases (consul.from_json pair.value)) [
      | inl (p, decodes) ↦ rw (held, decodes) (put-kept cell_id p found there)
      | inr (e, fails) ↦ rw (held, fails) there
    ]
  ]

  add_cell-Announces :
      (presence : CellPresence) (pair : KvPair) (found : GoMap CellPresence)
      → Announces pair presence
      → lookup presence.cell_id (add_cell pair found) ≢ none
  unfolding add_decoded
  add_cell-Announces presence pair found announces =
      rw (announces.held, announces.decodes)
        (ground (
          arith,
          lookup-put presence.cell_id presence.cell_id presence found,
          eq_iff presence.cell_id presence.cell_id,
        ))

  add_cells_sound :
      (cell_id : String) (presence : CellPresence) (pairs : List KvPair)
      (found : GoMap CellPresence)
      → lookup cell_id (add_cells consul found pairs) ≡ some presence
      → (lookup cell_id found ≡ some presence)
        ⊎ (Announced presence pairs × (presence.cell_id ≡ cell_id))
  unfolding add_cells
  add_cells_sound cell_id presence [] found h = inl h
  add_cells_sound cell_id presence (pair ∷ pairs) found h =
      elim (add_cells_sound cell_id presence pairs (add_cell pair found) h) [
        | inl before ↦ elim (add_cell-lookup cell_id presence pair found before) [
          | inl earlier ↦ inl earlier
          | inr (announces, same) ↦ inr ((pair, Memᴰ.head refl, announces), same)
        ]
        | inr ((q, m, announces), same) ↦ inr ((q, Memᴰ.tail m, announces), same)
      ]

  add_cells-kept :
      (cell_id : String) (pairs : List KvPair) (found : GoMap CellPresence)
      → lookup cell_id found ≢ none
      → lookup cell_id (add_cells consul found pairs) ≢ none
  unfolding add_cells
  add_cells-kept cell_id [] found there = there
  add_cells-kept cell_id (pair ∷ pairs) found there =
      add_cells-kept cell_id pairs (add_cell pair found) (add_cell-kept cell_id pair found there)

  add_cells_complete :
      (presence : CellPresence) (pair : KvPair) (pairs : List KvPair) (found : GoMap CellPresence)
      → Memᴰ pair pairs
      → Announces pair presence
      → lookup presence.cell_id (add_cells consul found pairs) ≢ none
  unfolding add_cells
  add_cells_complete presence pair [] found m announces = elim m [ ]
  add_cells_complete presence pair (q ∷ pairs) found (Memᴰ.head e) announces =
      add_cells-kept presence.cell_id pairs (add_cell q found)
        (add_cell-Announces presence q found (subst (λ x. Announces x presence) e announces))
  add_cells_complete presence pair (q ∷ pairs) found (Memᴰ.tail m) announces =
      add_cells_complete presence pair pairs (add_cell q found) m announces

  -- When consul lists its pairs without an error, Cells returns a set without an error: a presence in it
  -- is announced by one of the pairs and stands under its own id, and every id of which a pair announces
  -- a presence is in it.
  pub cells-Announced :
      (pairs : List KvPair)
      → consul.list (cell_schema_root consul) ≡ (some pairs, none)
      → (set : GoMap CellPresence) × (cells consul ≡ ok set)
        × ((cell_id : String) (presence : CellPresence)
            → lookup cell_id set ≡ some presence
            → Announced presence pairs × (presence.cell_id ≡ cell_id))
        × ((presence : CellPresence)
            → Announced presence pairs
            → lookup presence.cell_id set ≢ none)
  unfolding cells list_error listed_cells
  cells-Announced pairs h = (
    add_cells consul [] pairs,
    ground (arith, h),
    λ cell_id presence found. elim (add_cells_sound cell_id presence pairs [] found) [
      | inl before ↦ absurd (not_in_nil cell_id presence before)
      | inr announced ↦ announced
    ],
    λ presence (pair, m, announces). add_cells_complete presence pair pairs [] m announces,
  )
