-- ===== src/Mcp/Tools/Search.antt =====
-- internal/mcp/tools/web_search.go: a search at a service, which is a parameter.
use Prim.Native.String.{◌++◌ as str_append}
use agent_exec_engine.Prelude.{
  ℕ, String, false, List, [], ◌∷◌, Option, none, some, if◌then◌else◌, ◌==◌, leb, Map, lookup,
  Result, ok, err, with_error, ◌>>=◌,
}
use agent_exec_engine.Prelude.Int.{pos}
use agent_exec_engine.Prelude.Texts.{trim_space, join}
use agent_exec_engine.Types.{Value, text, ToolDefinition}

pub data SearchError : Type 0 where
  query_required : SearchError
  marshal_failed build_failed call_failed read_failed decode_failed : String → SearchError
  status_failed : ℕ → String → SearchError

-- The body of the request; its other fields are constants, which `encode` adds.
pub record SearchRequest : Type 0 where
  pub api_key : String
  pub query : String

pub record SearchItem : Type 0 where
  pub title : String
  pub url : String
  pub content : String

-- The answer's body is an error where it cannot be read.
pub record SearchService : Type 0 where
  pub encode : SearchRequest → Result String String
  pub build : String → Option String
  pub send : String → Result String (ℕ × Result String String)
  pub decode : String → Result String (List SearchItem)

abbrev web_search_definition : ToolDefinition
web_search_definition = record {
  name = "web_search";
  description = "Search the web for information.";
  input_schema = record {
    type = "object";
    properties =
        ("query", record { type = "string"; description = "Search query"; enum = [] }) ∷ [];
    required = "query" ∷ [];
  };
  category = "search";
  sandboxed = false;
  rate_limit = pos 10;
}

abbrev query_text : Option Value → Option String
query_text (some (text s)) = some s
query_text _ = none

abbrev non_blank : Option String → Result SearchError String
non_blank none = err query_required
non_blank (some query) = if trim_space query == "" then err query_required else ok query

abbrev item_line : SearchItem → String
item_line item =
    str_append "- " (
      str_append item.title
        (str_append " | " (str_append item.url (str_append " | " item.content))))

unfoldable item_lines : List SearchItem → List String
item_lines [] = []
item_lines (item ∷ items) = item_line item ∷ item_lines items

unfoldable print_items : String → List SearchItem → String
unfolding item_lines
print_items query [] = str_append "[web_search] no results for: " query
print_items query (item ∷ items) = join "\n" (item_lines (item ∷ items))

module _ (service : SearchService) where
  abbrev sent : String → Option String → Result SearchError (ℕ × Result String String)
  sent body (some e) = err (build_failed e)
  sent body none = with_error call_failed (service.send body)

  -- What is made of a body that could be read.
  unfoldable read_items : ℕ → String → Result SearchError (List SearchItem)
  read_items status body =
      if leb 300 status
      then err (status_failed status (trim_space body))
      else with_error decode_failed (service.decode body)

  unfoldable ask_service : String → String → Result SearchError String
  unfolding read_items print_items
  ask_service api_key query = do
    body ← with_error marshal_failed (service.encode (record { api_key = api_key; query = query }))
    (status, answer) ← sent body (service.build body)
    content ← with_error read_failed answer
    items ← read_items status content
    ok (print_items query items)

  unfoldable pub web_search : String → Map Value → Result SearchError String
  unfolding ask_service
  web_search api_key input = do
    query ← non_blank (query_text (lookup "query" input))
    if api_key == ""
        then ok
            (str_append "[web_search] results for: " (str_append query " (stub: missing api key)"))
        else ask_service api_key query
