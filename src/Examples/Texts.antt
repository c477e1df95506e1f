-- ===== src/Examples/Texts.antt =====
-- Templates, command lines and configuration entries on concrete texts.
use multi_fuzz_benchmarks.Prelude.{
  false, some, List, [], ◌∷◌, ◌++◌, map, ◌≡◌, refl, Text, codes, contains, text_eq,
}
use multi_fuzz_benchmarks.Rpc.{split_command}
use multi_fuzz_benchmarks.Rpc.Split.{assignment, AllKeys, split_command-words}
use multi_fuzz_benchmarks.Vars.{Variables, substitute, expand_vars}
use multi_fuzz_benchmarks.Vars.Expand.{expand_vars-template}

abbrev globals : Variables
globals = record { vars = (codes "WORKER_ID", codes "3") ∷ (codes "OUT", codes "/tmp/{x}") ∷ [] }

expand_vars-template_example :
    expand_vars globals (codes "run-{OUT}-{WORKER_ID}.csv")
    ≡ codes "run-"
      ++ (substitute globals (codes "OUT") ++ expand_vars globals (codes "-{WORKER_ID}.csv"))
expand_vars-template_example =
    expand_vars-template globals (codes "run-") (codes "OUT") (codes "-{WORKER_ID}.csv") refl refl

-- What `shlex` gives for one command line.
abbrev words : List Text
words = codes "AFL_DEBUG=1" ∷ codes "afl-fuzz" ∷ codes "-i" ∷ codes "x=y" ∷ []

split_command-words_example :
    (map assignment ((codes "AFL_DEBUG", codes "1") ∷ [])
        ++ codes "afl-fuzz" ∷ codes "-i" ∷ codes "x=y" ∷ []
      ≡ words)
    × AllKeys ((codes "AFL_DEBUG", codes "1") ∷ [])
    × (contains b'=' (codes "afl-fuzz") ≡ false)
unfolding split_command
split_command-words_example =
    split_command-words (λ _. some words) (codes "AFL_DEBUG=1 afl-fuzz -i x=y") words
      ((codes "AFL_DEBUG", codes "1") ∷ []) (codes "afl-fuzz") (codes "-i" ∷ codes "x=y" ∷ []) refl
      refl
