-- ===== src/Tests/Text.antt =====
-- The patterns and the setters on concrete inputs.
use heyfil.Base.{string_eq, ◌≡◌, refl, true, false, some, List, [], ◌∷◌, arith, ℕ_discrete}
use Prim.Native.String
use heyfil.Base.FilePath.{clean}
use heyfil.Base.Result.{ok}
use heyfil.FilClient.HeadPattern.{find_head_protocol_matches}
use heyfil.FilClient.HeadPattern.Topic.{OneLine, find_head_protocol_matches-topic}
use heyfil.Target.Agent.{agent_short_version}
use heyfil.Target.Agent.Version.{NoPlus, agent_short_version-metadata}
use heyfil.Options.{
  Options, Setter, new_options, default_options, with_api_listen_addr, with_store_path,
}
use heyfil.Options.Laws.{api_listen_addr, store_path, new_options-api_listen_addr}
use heyfil.Tests.World.{demo}

indexer-OneLine : OneLine "indexer/ingest/mainnet"
unfolding ℕ_discrete
indexer-OneLine = (
  refl,
  (
    refl,
    (
      refl,
      (
        refl,
        (
          refl,
          (
            refl,
            (
              refl,
              (
                refl,
                (
                  refl,
                  (
                    refl,
                    (
                      refl,
                      (
                        refl,
                        (
                          refl,
                          (
                            refl,
                            (refl, (refl, (refl, (refl, (refl, (refl, (refl, (refl, tt)))))))),
                          ),
                        ),
                      ),
                    ),
                  ),
                ),
              ),
            ),
          ),
        ),
      ),
    ),
  ),
)

find_head_protocol_matches-topic_example :
    find_head_protocol_matches
      (String.◌++◌ "/legs/head" (String.◌++◌ "/indexer/ingest/mainnet" "/0.0.1"))
    ≡ (true, "/indexer/ingest/mainnet")
find_head_protocol_matches-topic_example =
    find_head_protocol_matches-topic "i" "ndexer/ingest/mainnet" (omega arith) indexer-OneLine

boost-OneLine : OneLine "boost-2.1.0"
unfolding ℕ_discrete
boost-OneLine =
    (refl, (refl, (refl, (refl, (refl, (refl, (refl, (refl, (refl, (refl, (refl, tt)))))))))))

git-OneLine : OneLine "git.abc"
unfolding ℕ_discrete
git-OneLine = (refl, (refl, (refl, (refl, (refl, (refl, (refl, tt)))))))

git-NoPlus : NoPlus "git.abc"
git-NoPlus = omega arith

agent_short_version-metadata_example :
    agent_short_version (String.◌++◌ "boost-2.1.0" "+git.abc") ≡ "boost-2.1.0"
agent_short_version-metadata_example =
    agent_short_version-metadata "b" "oost-2.1.0" "git.abc" boost-OneLine git-OneLine git-NoPlus

abbrev setters : List Setter
setters = with_api_listen_addr "0.0.0.0:9000" ∷ with_store_path "/data/" ∷ []

abbrev made : Options
made = record default_options {
  h = some 7;
  metrics_listen_addr = "0.0.0.0:9000";
  store_path = "/data";
}

new_options_run : new_options setters ≡ ok made
unfolding new_options with_api_listen_addr with_store_path clean string_eq ℕ_discrete
new_options_run = refl

new_options-api_listen_addr_example :
    (made.api_listen_addr ≡ "0.0.0.0:8081") × (made.market_deals_fil_tools_enabled ≡ false)
new_options-api_listen_addr_example =
    new_options-api_listen_addr setters made
      (api_listen_addr "0.0.0.0:9000", (store_path "/data/", tt)) new_options_run
