-- ===== src/Redis/Streams.antt =====
-- redis_adapter.go: redisStreamForTopic on the topics of the components.
use taskbus.Prelude.{
  Str, List, [], ◌≢◌, ◌∷◌, ◌++◌, ◌≡◌, refl, ap, ◌∙◌, true, false, Lacks, has_prefix, append_assoc,
}
use taskbus.Topic.{dot, root, hash, split, build_topic, build_wildcard_topic}
use taskbus.Topic.Isolation.{wildcard-topic}
use taskbus.Topic.Split.{split-part, split-ne-nil}
use taskbus.Redis.{is_component_token, stream_of_words, redis_stream_for_topic}

stream-root :
    (s : Str) → redis_stream_for_topic (root ++ s) ≡ stream_of_words (root ++ s) (split dot s)
unfolding redis_stream_for_topic has_prefix
stream-root s = refl

-- The second word names the component.
stream_of_words_second :
    (topic n c : Str) (rest : List Str)
    → is_component_token n ≡ false
    → is_component_token c ≡ true
    → stream_of_words topic (n ∷ c ∷ rest) ≡ root ++ (n ++ (dot ∷ c))
unfolding stream_of_words
stream_of_words_second topic n c rest en ec = rw (en, ec) refl

-- The first word is the component, where another word follows.
stream_of_words_first :
    (topic c : Str) (rest : List Str)
    → rest ≢ []
    → is_component_token c ≡ true
    → stream_of_words topic (c ∷ rest) ≡ root ++ c
unfolding stream_of_words
stream_of_words_first topic c [] n e = absurd (n refl)
stream_of_words_first topic c (q ∷ rest) n e = rw e refl

-- Topics that begin with a component, as those of the global mode do.
pub stream_first :
    (c name : Str)
    → Lacks dot c
    → is_component_token c ≡ true
    → redis_stream_for_topic (root ++ (c ++ dot ∷ name)) ≡ root ++ c
stream_first c name lc e =
    stream-root (c ++ dot ∷ name)
    ∙ ap (stream_of_words (root ++ (c ++ dot ∷ name))) (split-part dot c name lc)
    ∙ stream_of_words_first (root ++ (c ++ dot ∷ name)) c (split dot name) (split-ne-nil dot name) e

behind_root : (n c name : Str) → build_topic n c name ≡ root ++ (n ++ dot ∷ (c ++ dot ∷ name))
unfolding build_topic
behind_root n c name = simp append_assoc

-- All topics of a component go by one stream, named for namespace and component, and so do its
-- wildcard and every pattern under its prefix. The namespace has no dot and is none of the words
-- `job`, `event` and `cron`; the component is one of them.
pub stream-build_topic :
    (n c name : Str)
    → Lacks dot n
    → Lacks dot c
    → is_component_token n ≡ false
    → is_component_token c ≡ true
    → (redis_stream_for_topic (build_topic n c name) ≡ root ++ (n ++ (dot ∷ c)))
      × (redis_stream_for_topic (build_wildcard_topic n c) ≡ root ++ (n ++ (dot ∷ c)))
stream-build_topic n c name ln lc en ec = (one name, rw (wildcard-topic n c) (one hash))
  where
    one : (s : Str) → redis_stream_for_topic (build_topic n c s) ≡ root ++ (n ++ (dot ∷ c))
    one s = rw (behind_root n c s) (
        stream-root (n ++ dot ∷ (c ++ dot ∷ s))
        ∙ ap (stream_of_words (root ++ (n ++ dot ∷ (c ++ dot ∷ s))))
            (split-part dot n (c ++ dot ∷ s) ln ∙ ap (λ ps. n ∷ ps) (split-part dot c s lc))
        ∙ stream_of_words_second (root ++ (n ++ dot ∷ (c ++ dot ∷ s))) n c (split dot s) en ec)
