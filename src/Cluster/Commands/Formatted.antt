-- ===== src/Cluster/Commands/Formatted.antt =====
-- What the two passes of `format` make of the template of a command.
use wallaroo.Base.{◌≡◌, refl, sym, ap, ◌∙◌, Bool, true, false, List, [], ◌∷◌, ◌++◌, All}
use wallaroo.Base.{ok, ◌>>=◌}
use wallaroo.Base.Text.{Text, codes}
use wallaroo.Base.Dict.{Dict, text_eq, lookup}
use wallaroo.Cluster.Commands.{
  plain, format_from, format, brace_of, no_brace, opening, closing, emit, Brace, format_char, Site,
  make_stub, fill_stub, Fields, in_block, out_block, block_unless_none,
}

-- A text without braces.
abbrev pub Braceless : Text → Type 0
Braceless = All (λ c. brace_of c ≡ no_brace)

abbrev no_braces : Brace → Bool → Bool
no_braces no_brace rest = rest
no_braces opening rest = false
no_braces closing rest = false

abbrev braceless : Text → Bool
braceless [] = true
braceless (c ∷ t) = no_braces (brace_of c) (braceless t)

Braceless-of : (t : Text) → braceless t ≡ true → Braceless t
Braceless-of [] h = tt
Braceless-of (c ∷ t) h = go (brace_of c) refl h (Braceless-of t)
  where
    go :
        (b : Brace)
        → brace_of c ≡ b
        → no_braces b (braceless t) ≡ true
        → (braceless t ≡ true → Braceless t)
        → Braceless (c ∷ t)
    go opening e h ih = cc
    go closing e h ih = cc
    go no_brace e h ih = (e, ih h)

-- `format` takes a text without braces as it is.
format_from-Braceless :
    (d : Dict Text Text) (t s out : Text)
    → Braceless t
    → format_from d s plain ≡ ok out
    → format_from d (t ++ s) plain ≡ ok (t ++ out)
unfolding format_from
format_from-Braceless d [] s out h e = e
format_from-Braceless d (c ∷ t) s out (h, hs) e =
    ap (λ b. format_char d plain c b (format_from d (t ++ s))) h
    ∙ ap (emit c) (format_from-Braceless d t s out hs e)

abbrev onto : List Text → Text → Text
onto [] s = s
onto (t ∷ ts) s = t ++ onto ts s

format_from-onto :
    (d : Dict Text Text) (ts : List Text) (s out : Text)
    → All Braceless ts
    → format_from d s plain ≡ ok out
    → format_from d (onto ts s) plain ≡ ok (onto ts out)
format_from-onto d [] s out h e = e
format_from-onto d (t ∷ ts) s out (h, hs) e =
    format_from-Braceless d t (onto ts s) (onto ts out) h (format_from-onto d ts s out hs e)

-- The template with all of its fields in one pass.
abbrev pub one_pass : Text
one_pass =
    codes "{command} \\\n    {in_block} \\\n    {out_block} \\\n    --metrics {metrics_addr} \\\n"
    ++ (codes
          "    --resilience-dir {res_dir} \\\n    --name {name} \\\n    {initializer_block} \\\n"
        ++ (codes
              "    {worker_block} \\\n    {join_block} \\\n    {spike_block} \\\n    {alt_block} \\\n"
            ++ codes "    --ponythreads=1 \\\n    --ponypinasio \\\n    --ponynoblock"))

abbrev pub all_fields : Site → Text → Text → Fields → Dict Text Text
all_fields site inputs outputs f =
    (codes "command", site.command)
    ∷ (codes "in_block", inputs)
    ∷ (codes "out_block", outputs)
    ∷ (codes "metrics_addr", site.metrics_addr)
    ∷ (codes "res_dir", site.res_dir)
    ∷ (codes "name", f.name)
    ∷ (codes "initializer_block", f.initializer_block)
    ∷ (codes "worker_block", f.worker_block)
    ∷ (codes "join_block", f.join_block)
    ∷ (codes "alt_block", f.alt_block)
    ∷ (codes "spike_block", f.spike_block)
    ∷ []

abbrev line_end : Text
line_end = codes " \\\n    "

abbrev rest_fields : Text
rest_fields =
    codes " \\\n    --name {name} \\\n    {initializer_block} \\\n"
    ++ (codes
          "    {worker_block} \\\n    {join_block} \\\n    {spike_block} \\\n    {alt_block} \\\n"
        ++ codes "    --ponythreads=1 \\\n    --ponypinasio \\\n    --ponynoblock")

abbrev stub_text : Site → Text → Text → Text → Text
stub_text site inputs outputs rest =
    site.command
    ++ (line_end
        ++ (inputs
            ++ (line_end
                ++ (outputs
                    ++ (codes " \\\n    --metrics "
                        ++ (site.metrics_addr
                            ++ (codes " \\\n    --resilience-dir " ++ (site.res_dir ++ rest))))))))

make_stub_text :
    (site : Site) (inputs outputs : Text)
    → block_unless_none in_block (codes "inputs") site.source_addrs ≡ ok inputs
    → block_unless_none out_block (codes "outputs") site.sink_addrs ≡ ok outputs
    → make_stub site ≡ ok (stub_text site inputs outputs rest_fields)
unfolding make_stub format format_from lookup text_eq
make_stub_text site inputs outputs i o = rw (i, o) refl

abbrev filled : Fields → Text
filled f =
    codes " \\\n    --name "
    ++ (f.name
        ++ (line_end
            ++ (f.initializer_block
                ++ (line_end
                    ++ (f.worker_block
                        ++ (line_end
                            ++ (f.join_block
                                ++ (line_end
                                    ++ (f.spike_block
                                        ++ (line_end
                                            ++ (f.alt_block
                                                ++ codes
                                                    " \\\n    --ponythreads=1 \\\n    --ponypinasio \\\n    --ponynoblock")))))))))))

abbrev worker_fields : Fields → Dict Text Text
worker_fields f =
    (codes "name", f.name)
    ∷ (codes "initializer_block", f.initializer_block)
    ∷ (codes "worker_block", f.worker_block)
    ∷ (codes "join_block", f.join_block)
    ∷ (codes "alt_block", f.alt_block)
    ∷ (codes "spike_block", f.spike_block)
    ∷ []

format_from-rest : (f : Fields) → format_from (worker_fields f) rest_fields plain ≡ ok (filled f)
unfolding format_from lookup text_eq
format_from-rest f = refl

format-one_pass :
    (site : Site) (inputs outputs : Text) (f : Fields)
    → format one_pass (all_fields site inputs outputs f)
      ≡ ok (stub_text site inputs outputs (filled f))
unfolding format format_from lookup text_eq
format-one_pass site inputs outputs f = refl

fill_stub-stub_text :
    (site : Site) (inputs outputs : Text) (f : Fields)
    → Braceless site.command
    → Braceless inputs
    → Braceless outputs
    → Braceless site.metrics_addr
    → Braceless site.res_dir
    → fill_stub (stub_text site inputs outputs rest_fields) f
      ≡ ok (stub_text site inputs outputs (filled f))
unfolding fill_stub format
fill_stub-stub_text site inputs outputs f command ins outs metrics dir =
    let line = Braceless-of line_end refl in
    format_from-onto (worker_fields f)
      (site.command
        ∷ line_end
        ∷ inputs
        ∷ line_end
        ∷ outputs
        ∷ codes " \\\n    --metrics "
        ∷ site.metrics_addr
        ∷ codes " \\\n    --resilience-dir "
        ∷ site.res_dir
        ∷ [])
      rest_fields (filled f)
      (
        command,
        (
          line,
          (
            ins,
            (
              line,
              (
                outs,
                (
                  Braceless-of (codes " \\\n    --metrics ") refl,
                  (metrics, (Braceless-of (codes " \\\n    --resilience-dir ") refl, (dir, tt))),
                ),
              ),
            ),
          ),
        ),
      )
      (format_from-rest f)

-- Where the command, the two blocks of addresses, the metrics address and the directory have no
-- braces, the two passes of `format` over the template of a command return, and give what one pass
-- over the template with all of its fields gives.
pub make_stub-fill_stub :
    (site : Site) (inputs outputs : Text) (f : Fields)
    → block_unless_none in_block (codes "inputs") site.source_addrs ≡ ok inputs
    → block_unless_none out_block (codes "outputs") site.sink_addrs ≡ ok outputs
    → Braceless site.command
    → Braceless inputs
    → Braceless outputs
    → Braceless site.metrics_addr
    → Braceless site.res_dir
    → ((make_stub site >>= λ stub. fill_stub stub f)
        ≡ format one_pass (all_fields site inputs outputs f))
      × ((t : Text) × (format one_pass (all_fields site inputs outputs f) ≡ ok t))
make_stub-fill_stub site inputs outputs f i o command ins outs metrics dir = (
  ap (λ r. r >>= λ stub. fill_stub stub f) (make_stub_text site inputs outputs i o)
      ∙ fill_stub-stub_text site inputs outputs f command ins outs metrics dir
      ∙ sym (format-one_pass site inputs outputs f),
  (_, format-one_pass site inputs outputs f),
)
