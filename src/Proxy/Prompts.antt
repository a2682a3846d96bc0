-- ===== src/Proxy/Prompts.antt =====
-- src/ic_govmind_api_proxy/server.js: the prompts. A template literal is the list of its lines,
-- with what is filled in between.
pub mod Laws
use ic_govmind.Base.{Option, none, some, List, [], ◌∷◌, ◌++◌, String, Outcome, returns, ◌>>=◌}
use ic_govmind.Js.Text.{Text, codes, join}
use ic_govmind.Js.Value.{Value, str, Items, nil, cons, Engine, prop, or_else, to_text}

unfoldable pub text_of_lines : List String → Text
text_of_lines [] = []
text_of_lines (s ∷ []) = codes s
text_of_lines (s ∷ t ∷ ss) = codes s ++ (b'\n' ∷ text_of_lines (t ∷ ss))

unfoldable pub create_analysis_prompt : Text → Text → Text
create_analysis_prompt title description =
    text_of_lines (
      "Please analyze the following DAO proposal and provide a detailed analysis report:" ∷ ""
      ∷ "Proposal Title: " ∷ [])
    ++ (title
        ++ (text_of_lines ("" ∷ "Proposal Description: " ∷ [])
            ++ (description
                ++ (text_of_lines (
                    "" ∷ "" ∷ "Please analyze from the following perspectives:" ∷ ""
                    ∷ "1. Summary: Summarize the core content of the proposal in simple and understandable language"
                    ∷ "2. Risk Assessment: Analyze the potential risks and challenges. Format as a single text string with numbered points (1. First risk, 2. Second risk, etc.)"
                    ∷ "3. Recommendations: Provide specific improvement suggestions or precautions. Format as a single text string with numbered points (1. First recommendation, 2. Second recommendation, etc.)"
                    ∷ "4. Complexity Analysis: Provide a comprehensive complexity assessment"
                    ∷ "5. Estimated Impact: Evaluate the potential impact of the proposal on the DAO"
                    ∷ "" ∷ "Return the result in JSON format without any markdown wrappers:" ∷ "{"
                    ∷ "    \"summary\": \"Summary of the proposal\","
                    ∷ "    \"risk_assessment\": \"1. First risk point 2. Second risk point 3. Third risk point\","
                    ∷ "    \"recommendations\": \"1. First recommendation 2. Second recommendation 3. Third recommendation\","
                    ∷ "    \"complexity_score\": 5.5," ∷ "    \"complexity_breakdown\": {"
                    ∷ "        \"technical_complexity\": 6.0,"
                    ∷ "        \"financial_complexity\": 4.0,"
                    ∷ "        \"governance_complexity\": 7.0,"
                    ∷ "        \"timeline_complexity\": 5.0,"
                    ∷ "        \"explanation\": \"Complexity explanation with reasoning for each score\","
                    ∷ "        \"comparison\": \"How this compares to typical DAO proposals\""
                    ∷ "    },"
                    ∷ "    \"estimated_impact\": \"Estimated impact on the DAO with specific details\""
                    ∷ "}" ∷ [])))))

unfoldable pub create_draft_prompt : Text → Text
create_draft_prompt idea =
    text_of_lines (
      "You are an expert assistant for a Decentralized Autonomous Organization (DAO). Your task is to take a user's raw idea and transform it into a formal, well-structured proposal draft."
      ∷ "" ∷ "The DAO uses a standard proposal format with four sections:"
      ∷ "1. **Title:** A concise and clear title."
      ∷ "2. **Summary:** A one-paragraph executive summary explaining the proposal."
      ∷ "3. **Rationale:** A detailed explanation of why this proposal is necessary and beneficial for the DAO."
      ∷ "4. **Specifications:** The concrete actions to be taken if the proposal passes (e.g., specific amounts, wallet addresses, canister calls)."
      ∷ "" ∷ "Here is the user's raw idea:" ∷ "\"" ∷ [])
    ++ (idea
        ++ (text_of_lines (
            "\"" ∷ ""
            ∷ "Based on this idea, please generate the proposal. If some details are missing (like a specific wallet address), use a clear placeholder like \"[INSERT WALLET ADDRESS HERE]\" and mention in the rationale that this needs to be provided."
            ∷ ""
            ∷ "Your response MUST be a single, valid JSON object and nothing else. Do not include any introductory text, explanations, or markdown formatting. The JSON object must have the following keys: \"title\", \"summary\", \"rationale\", \"specifications\"."
            ∷ [])))

unfoldable pub create_debate_simulation_prompt : Text → Text → Text
create_debate_simulation_prompt title content =
    text_of_lines (
      "You are facilitating a DAO governance debate simulation. Generate 4 distinct AI personas who will critically evaluate this proposal from different perspectives."
      ∷ "" ∷ "Proposal Title: " ∷ [])
    ++ (title
        ++ (text_of_lines ("" ∷ "Proposal Content: " ∷ [])
            ++ (content
                ++ (text_of_lines (
                    "" ∷ "" ∷ "Generate exactly 4 personas with these specific roles:"
                    ∷ "1. **Financial Steward** - Focus on budget, ROI, financial sustainability"
                    ∷ "2. **Mission Guardian** - Focus on strategic alignment with DAO mission and values"
                    ∷ "3. **Technical Realist** - Focus on implementation feasibility and technical challenges"
                    ∷ "4. **Community Advocate** - Focus on transparency, community impact, and member interests"
                    ∷ "" ∷ "For each persona, provide:"
                    ∷ "- name: A professional name for the persona"
                    ∷ "- icon: One of these exact values: \"DollarSign\", \"Target\", \"Code\", \"Users\""
                    ∷ "- coreArgument: Their main perspective on the proposal (2-3 sentences)"
                    ∷ "- objections: Array of 2-3 specific concerns or risks they identify"
                    ∷ "- actionableSuggestion: One concrete, specific improvement they recommend"
                    ∷ "" ∷ "Return the result in JSON format without any markdown wrappers:" ∷ "{"
                    ∷ "  \"personas\": [" ∷ "    {" ∷ "      \"name\": \"Persona Name\","
                    ∷ "      \"icon\": \"IconName\","
                    ∷ "      \"coreArgument\": \"Main argument text\","
                    ∷ "      \"objections\": [\"First objection\", \"Second objection\"],"
                    ∷ "      \"actionableSuggestion\": \"Specific suggestion text\"" ∷ "    }"
                    ∷ "  ]" ∷ "}" ∷ [])))))

unfoldable pub committee_suggestion_text : Text → Text → Text
committee_suggestion_text committee_list idea =
    text_of_lines (
      "You are an expert assistant for a Decentralized Autonomous Organization (DAO). Your task is to:"
      ∷ "1. Transform a user's raw idea into a formal, well-structured proposal draft"
      ∷ "2. Suggest the most appropriate committee to review this proposal" ∷ ""
      ∷ "The DAO uses a standard proposal format with four sections:"
      ∷ "1. **Title:** A concise and clear title."
      ∷ "2. **Summary:** A one-paragraph executive summary explaining the proposal."
      ∷ "3. **Rationale:** A detailed explanation of why this proposal is necessary and beneficial for the DAO."
      ∷ "4. **Specifications:** The concrete actions to be taken if the proposal passes (e.g., specific amounts, wallet addresses, canister calls)."
      ∷ "" ∷ "Available committees and their responsibilities:" ∷ "" ∷ [])
    ++ (committee_list
        ++ (text_of_lines ("" ∷ "" ∷ "Here is the user's raw idea:" ∷ "\"" ∷ [])
            ++ (idea
                ++ (text_of_lines (
                    "\"" ∷ "" ∷ "Based on this idea, please:"
                    ∷ "1. Generate a formal proposal draft following the standard format"
                    ∷ "2. Analyze which committee would be most suitable to review this proposal"
                    ∷ "3. Provide reasoning for your committee recommendation"
                    ∷ "4. If no suitable committee is found, set \"suggested_committee_id\" to null"
                    ∷ ""
                    ∷ "Your response MUST be a single, valid JSON object and nothing else. Do not include any introductory text, explanations, or markdown formatting. The JSON object must have the following keys:"
                    ∷ "- \"title\": string" ∷ "- \"summary\": string  " ∷ "- \"rationale\": string"
                    ∷ "- \"specifications\": string"
                    ∷ "- \"suggested_committee_id\": string (the ID of the recommended committee)"
                    ∷ "- \"committee_reasoning\": string (explanation for why this committee is most suitable)"
                    ∷ [])))))

module _ {N : Type 0} ⦃e : Engine N⦄ where
  -- `- ${type} (ID: ${committee.id}): ${responsibilities}`.
  unfoldable pub committee_line : Value N → Outcome Text
  committee_line committee = do
    type ← prop (codes "committee_type") committee
    responsibilities ← prop (codes "responsibilities") committee
    type_text ← to_text (some (or_else type (str (codes "Unknown"))))
    id ← prop (codes "id") committee
    id_text ← to_text id
    duties ← to_text (some (or_else responsibilities (str (codes "No responsibilities defined"))))
    returns (codes "- " ++ (type_text ++ (codes " (ID: " ++ (id_text ++ (codes "): " ++ duties)))))

  unfoldable pub committee_lines : Items N → Outcome (List Text)
  committee_lines nil = returns []
  committee_lines (cons c cs) = do
    line ← committee_line c
    lines ← committee_lines cs
    returns (line ∷ lines)

  unfoldable pub create_committee_suggestion_prompt : Option (Value N) → Items N → Outcome Text
  create_committee_suggestion_prompt idea committees = do
    lines ← committee_lines committees
    idea_text ← to_text idea
    returns (committee_suggestion_text (join (codes "\n") lines) idea_text)
