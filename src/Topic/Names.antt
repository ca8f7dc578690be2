-- ===== src/Topic/Names.antt =====
-- util.go: trimTopicPrefix on the topics that buildTopic makes.
use taskbus.Prelude.{
  Str, ◌++◌, ◌≡◌, ◌≢◌, refl, ap, ◌∙◌, [], ◌∷◌, length-append, false, has_prefix, has_prefix-append,
  length, drop-length-append, arith,
}
use taskbus.Topic.{trim_topic_prefix, build_topic_prefix, build_topic}

longer-ne : (p s : Str) → p ≢ [] → s ≢ p ++ s
longer-ne [] s n e = n refl
longer-ne (c ∷ p) s n e = omega (arith, ap length e, length-append p s)

prefix-ne-nil : (n c : Str) → build_topic_prefix n c ≢ []
unfolding build_topic_prefix
prefix-ne-nil n c e = cc

pub trim_topic_prefix-append : (p s : Str) → trim_topic_prefix (p ++ s) p ≡ s
unfolding trim_topic_prefix
trim_topic_prefix-append p s = rw (has_prefix-append p s) (drop-length-append p s)

-- A topic that does not start with the prefix is returned as it is.
pub trim_topic_prefix_other :
    (topic prefix : Str) → has_prefix topic prefix ≡ false → trim_topic_prefix topic prefix ≡ topic
unfolding trim_topic_prefix
trim_topic_prefix_other topic prefix h = rw h

pub build_topic_lem : (n c name : Str) → build_topic n c name ≡ build_topic_prefix n c ++ name
unfolding build_topic
build_topic_lem n c name = refl

-- No topic of a component is its own name.
pub name-ne-build_topic : (n c name : Str) → name ≢ build_topic n c name
name-ne-build_topic n c name e =
    longer-ne (build_topic_prefix n c) name (prefix-ne-nil n c) (e ∙ build_topic_lem n c name)

pub trim-build_topic :
    (namespace component name : Str)
    → trim_topic_prefix
        (build_topic namespace component name)
        (build_topic_prefix namespace component)
      ≡ name
unfolding build_topic
trim-build_topic namespace component name =
    trim_topic_prefix-append (build_topic_prefix namespace component) name
