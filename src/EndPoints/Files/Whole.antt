-- ===== src/EndPoints/Files/Whole.antt =====
-- Framed files that `files_generator` of demos/resilience-demo/lib/end_points.py reads whole.
use wallaroo.Base.{ℕ, ◌<◌, List, [], ◌∷◌, ◌≡◌, refl, ap, ◌∙◌, map, join, length, All}
use wallaroo.Base.Text.{Text}
use wallaroo.Struct.{Bytes}
use wallaroo.EndPoints.Frames.{
  ended, pieces, frame, IsRecord, framed_file_generator, framed_file_generator-pieces,
}
use wallaroo.EndPoints.Files.{
  framed, Paths, path_list, one_file, and_files, all_files, files_generator,
}

module _ (fuel : ℕ) (content : Text → Bytes) (records : Text → List Bytes) where
  -- The file holds the framed records, and there is fuel for them.
  abbrev pub IsFramed : Text → Type 0
  IsFramed p =
      (content p ≡ join (map frame (records p)))
      × All IsRecord (records p)
      × (length (records p) < fuel)

  all_files-pieces :
      (ps : List Text)
      → All IsFramed ps
      → all_files fuel framed content ps ≡ (join (map (λ p. pieces (records p)) ps), ended)
  unfolding all_files one_file
  all_files-pieces [] h = refl
  all_files-pieces (p ∷ ps) ((e, r, n), h) =
      ap (λ f. and_files f (all_files fuel framed content ps))
        (ap (framed_file_generator fuel) e ∙ framed_file_generator-pieces fuel (records p) r n)
      ∙ ap (and_files (pieces (records p), ended)) (all_files-pieces ps h)

  -- Framed files are read one behind the other, each as often as it is named, and every record comes as a
  -- header and a body.
  pub files_generator-pieces :
      (ps : Paths)
      → All IsFramed (path_list ps)
      → files_generator fuel framed content ps
        ≡ (join (map (λ p. pieces (records p)) (path_list ps)), ended)
  unfolding files_generator
  files_generator-pieces ps h = all_files-pieces (path_list ps) h
