-- ===== src/Pipeline/Config/RoundTrip.antt =====
-- The address options read back what they are written for.
use wallaroo.Base.{ℕ, ◌≡◌, refl, ap, List, [], ◌∷◌, ◌++◌, map, All, Option, none, some}
use wallaroo.Base.{◌∙◌}
use wallaroo.Base.Text.{Text, split, intercalate, Lacks, split_of_Lacks, split-append}
use wallaroo.Base.Text.{split-intercalate}
use wallaroo.Pipeline.Config.{tcp_parse_addrs, kafka_parse_broker, kafka_parse_brokers}
use wallaroo.Pipeline.Config.{broker_text, default_port}

abbrev colon : ℕ
colon = b':'

abbrev comma : ℕ
comma = b','

-- A host or a port as an option can hold it.
abbrev pub IsPlain : Text → Type 0
IsPlain t = Lacks b':' t × Lacks b',' t

Lacks-append : (sep : ℕ) (s t : Text) → Lacks sep s → Lacks sep t → Lacks sep (s ++ t)
Lacks-append sep [] t h k = k
Lacks-append sep (c ∷ s) t (h, hs) k = (h, Lacks-append sep s t hs k)

-- `host:port`
unfoldable pub addr_text : Text × Text → Text
addr_text (host, port) = host ++ (b':' ∷ port)

abbrev pub IsAddr : Text × Text → Type 0
IsAddr (host, port) = IsPlain host × IsPlain port

addr_text-Lacks : (a : Text × Text) → IsAddr a → Lacks comma (addr_text a)
unfolding addr_text
addr_text-Lacks (host, port) (h, p) = Lacks-append comma host (colon ∷ port) h.1 (refl, p.1)

split-addr_text : (a : Text × Text) → IsAddr a → split colon (addr_text a) ≡ a.0 ∷ a.1 ∷ []
unfolding addr_text
split-addr_text (host, port) (h, p) =
    split-append colon host port h.0 ∙ ap (λ t. host ∷ t) (split_of_Lacks colon port p.0)

module _ {A : Type 0} {P : A → Type 0} (text : A → Text)
    (h : (a : A) → P a → Lacks comma (text a)) where
  All-Lacks : (l : List A) → All P l → All (Lacks comma) (map text l)
  All-Lacks [] _ = tt
  All-Lacks (a ∷ l) (p, ps) = (h a p, All-Lacks l ps)

map-split :
    (l : List (Text × Text))
    → All IsAddr l
    → map (split colon) (map addr_text l) ≡ map (λ a. a.0 ∷ a.1 ∷ []) l
map-split [] _ = refl
map-split (a ∷ l) (h, hs) = λ i. split-addr_text a h i ∷ map-split l hs i

-- A list of `host:port`, joined by commas, is read as the pairs of its hosts and ports, where no
-- host or port holds a colon or a comma.
pub tcp_parse_addrs-intercalate :
    (a : Text × Text) (l : List (Text × Text))
    → All IsAddr (a ∷ l)
    → tcp_parse_addrs (intercalate b',' (map addr_text (a ∷ l))) ≡ map (λ x. x.0 ∷ x.1 ∷ []) (a ∷ l)
unfolding tcp_parse_addrs
tcp_parse_addrs-intercalate a l h =
    ap (map (split colon)) (
      split-intercalate comma (addr_text a) (map addr_text l)
        (All-Lacks addr_text addr_text-Lacks (a ∷ l) h))
    ∙ map-split (a ∷ l) h

abbrev pub IsBroker : Text × Option Text → Type 0
IsBroker (host, none) = IsPlain host
IsBroker (host, some port) = IsPlain host × IsPlain port

abbrev pub with_default : Text × Option Text → Text × Text
with_default (host, none) = (host, default_port)
with_default (host, some port) = (host, port)

abbrev text_of : Text × Option Text → Text
text_of b = broker_text b.0 b.1

text_of-Lacks : (b : Text × Option Text) → IsBroker b → Lacks comma (text_of b)
unfolding broker_text
text_of-Lacks (host, none) h = h.1
text_of-Lacks (host, some port) (h, p) = Lacks-append comma host (colon ∷ port) h.1 (refl, p.1)

kafka_parse_broker-text :
    (b : Text × Option Text) → IsBroker b → kafka_parse_broker (text_of b) ≡ with_default b
unfolding broker_text kafka_parse_broker
kafka_parse_broker-text (host, none) h = rw (split_of_Lacks colon host h.0)
kafka_parse_broker-text (host, some port) (h, p) =
    rw (split-append colon host port h.0) (rw (split_of_Lacks colon port p.0))

map-brokers :
    (bs : List (Text × Option Text))
    → All IsBroker bs
    → map kafka_parse_broker (map text_of bs) ≡ map with_default bs
map-brokers [] _ = refl
map-brokers (b ∷ bs) (h, hs) = λ i. kafka_parse_broker-text b h i ∷ map-brokers bs hs i

-- A list of brokers, each with or without a port and joined by commas, is read as its hosts, each
-- with its port or else with 9092.
pub kafka_parse_brokers-intercalate :
    (b : Text × Option Text) (bs : List (Text × Option Text))
    → All IsBroker (b ∷ bs)
    → kafka_parse_brokers (intercalate b',' (map (λ x. broker_text x.0 x.1) (b ∷ bs)))
      ≡ map with_default (b ∷ bs)
unfolding kafka_parse_brokers
kafka_parse_brokers-intercalate b bs h =
    ap (map kafka_parse_broker) (
      split-intercalate comma (text_of b) (map text_of bs)
        (All-Lacks text_of text_of-Lacks (b ∷ bs) h))
    ∙ map-brokers (b ∷ bs) h
