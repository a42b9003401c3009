-- ===== src/Agent/Results/Paths.antt =====
-- The path of a result object: pathForURI and parseS3ResultURI of internal/agent/result_store.go. `url.Parse` and
-- `filepath.Join` are arguments.
use k8s.Prelude.{
  ℕ, ◌≡◌, ◌≢◌, Bool, false, ◌||◌, not, List, [], ◌∷◌, if◌then◌else◌, ◌==◌, any, All, arith,
  Bool-cases, inl, inr,
}
use k8s.Prelude.Text.{Str, lit, str_eq, is_empty, trim_prefix, eq→str_eq}
use k8s.Errors.{
  Checked, Result, ok, err, external, result_store_not_configured, ◌>>=◌, ◌>>◌, fail_if,
  Result-cases,
}
use k8s.Fleet.Patterns.Ids.{IsSafeSegment}

-- The parts of a `url.URL` that the code reads.
pub record ParsedUrl : Type 0 where
  pub scheme : Str
  pub host : Str
  pub path : Str
  pub raw_query : Str
  pub fragment : Str

abbrev onto_first : ℕ → List Str → List Str
onto_first c [] = (c ∷ []) ∷ []
onto_first c (p ∷ ps) = (c ∷ p) ∷ ps

-- strings.Split with a separator of one byte.
unfoldable pub split : ℕ → Str → List Str
split sep [] = [] ∷ []
split sep (c ∷ s) = let rest = split sep s in if c == sep then [] ∷ rest else onto_first c rest

unfoldable pub unsafe_local_path_segment : Str → Bool
unsafe_local_path_segment part =
    is_empty part
    || (str_eq part (lit ".") || (str_eq part (lit "..") || any (λ c. c == b'/') part))

-- What parseS3ResultURI makes of a URL: the bucket and the key.
unfoldable pub s3_parts : ParsedUrl → Result (Str × Str)
s3_parts u = do
  fail_if
      (not (str_eq u.scheme (lit "s3"))
        || (is_empty u.host || (not (is_empty u.raw_query) || not (is_empty u.fragment))))
      (external (lit "unsupported result URI"))
  fail_if (is_empty (trim_prefix u.path (lit "/")))
      (external (lit "result URI has empty object key"))
  ok (u.host, trim_prefix u.path (lit "/"))

-- The loop over the parts of the key.
unfoldable pub check_parts : List Str → Checked
check_parts [] = ok tt
check_parts (p ∷ ps) =
    let rest = check_parts ps in
    do
      fail_if (unsafe_local_path_segment p)
          (external (lit "result URI contains an unsafe path segment"))
      rest

module _ (parse : Str → Result ParsedUrl) (join : List Str → Str) where
  unfoldable pub parse_s3_result_uri : Str → Result (Str × Str)
  parse_s3_result_uri raw = parse raw >>= s3_parts

  abbrev pub joined_path : Str → Str × Str → Result Str
  joined_path root (bucket, key) = do
    fail_if (unsafe_local_path_segment bucket)
        (external (lit "result URI contains an unsafe bucket segment"))
    check_parts (split b'/' key)
    ok (join (root ∷ bucket ∷ split b'/' key))

  -- LocalResultStore.pathForURI, of a store that is not nil.
  unfoldable pub path_for_uri : Str → Str → Result Str
  path_for_uri root raw =
      if is_empty root
      then err result_store_not_configured
      else (parse_s3_result_uri raw >>= joined_path root)

slash_free : (s : Str) → any (λ c. c == b'/') s ≡ false → All (λ c. c ≢ b'/') s
unfolding any
slash_free [] h = tt
slash_free (c ∷ s) h = ground (arith, slash_free s)

segment-IsSafeSegment : (s : Str) → unsafe_local_path_segment s ≡ false → IsSafeSegment s
unfolding unsafe_local_path_segment is_empty
segment-IsSafeSegment [] h = absurd cc
segment-IsSafeSegment (c ∷ s) h = record {
  nonempty = λ e. cc;
  no_slash = slash_free (c ∷ s) (ground arith);
  not_dot = λ e. cc (eq→str_eq (c ∷ s) (lit ".") e, h);
  not_dot_dot = λ e. ground (arith, eq→str_eq (c ∷ s) (lit "..") e, h);
}

check_parts-safe : (ps : List Str) → check_parts ps ≡ ok tt → All IsSafeSegment ps
unfolding check_parts
check_parts-safe [] h = tt
check_parts-safe (p ∷ ps) h =
    (segment-IsSafeSegment p (ground arith), check_parts-safe ps (ground arith))

-- A path below the root: the root and safe segments, joined.
pub record IsBelow (join : List Str → Str) (root path : Str) : Type 0 where
  pub segments : List Str
  pub joins : path ≡ join (root ∷ segments)
  pub safe : All IsSafeSegment segments

module _ (parse : Str → Result ParsedUrl) (join : List Str → Str) where
  joined_path-IsBelow :
      (root path : Str) (parts : Str × Str)
      → joined_path parse join root parts ≡ ok path
      → IsBelow join root path
  joined_path-IsBelow root path (bucket, key) h =
      elim (Bool-cases (unsafe_local_path_segment bucket)) [
        | inl bad ↦ absurd (ground (arith, bad, h))
        | inr fit ↦ elim (Result-cases (check_parts (split b'/' key))) [
          | inl (e, bad) ↦ absurd (ground (arith, fit, bad, h))
          | inr (_, good) ↦ record {
            segments = bucket ∷ split b'/' key;
            joins = ground (arith, fit, good, h);
            safe = (segment-IsSafeSegment bucket fit, check_parts-safe (split b'/' key) good);
          }
        ]
      ]

  -- A path that pathForURI gives joins the root and safe segments: not empty, without a slash, and
  -- neither . nor ..
  pub path_for_uri-IsBelow :
      (root raw path : Str) → path_for_uri parse join root raw ≡ ok path → IsBelow join root path
  unfolding path_for_uri
  path_for_uri-IsBelow root raw path h = elim (Bool-cases (is_empty root)) [
    | inl no_root ↦ absurd (ground (arith, no_root, h))
    | inr rooted ↦ elim (Result-cases (parse_s3_result_uri parse join raw)) [
      | inl (e, bad) ↦ absurd (ground (arith, rooted, bad, h))
      | inr (parts, good) ↦ joined_path-IsBelow root path parts (ground (arith, rooted, good, h))
    ]
  ]
