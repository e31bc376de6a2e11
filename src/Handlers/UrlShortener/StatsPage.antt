-- ===== src/Handlers/UrlShortener/StatsPage.antt =====
-- src/handlers/url_shortener_handler.cc: the text of the page of statistics.
use bit_link.Prelude.{◌++◌, [], ◌∷◌, List, ℕ}
use bit_link.Str.{Bytes, codes}
use bit_link.Str.Number.{pos, to_string}
use bit_link.StrMap.{StrMap}
use bit_link.Models.{ClickStats}
use bit_link.JsonBuilder.{comma_list}
use bit_link.Handlers.UrlShortener.Text.{text}

unfoldable pub stats_title : Bytes
stats_title = text (
    "<!DOCTYPE html>" ∷ "        <html lang=\"en\">" ∷ "        <head>"
    ∷ "            <meta charset=\"UTF-8\">"
    ∷ "            <meta name=\"viewport\" content=\"width=device-width, initial-scale=1.0\">"
    ∷ "            <title>Stats for Short URL - " ∷ [])

unfoldable pub stats_style : Bytes
stats_style = text (
    "</title>" ∷ "            <!-- Include Tailwind CSS -->"
    ∷ "            <script src=\"https://cdn.tailwindcss.com\"></script>"
    ∷ "            <!-- Custom Font -->"
    ∷ "            <link href=\"https://fonts.googleapis.com/css2?family=Inter:wght@400;500;600;700&display=swap\" rel=\"stylesheet\">"
    ∷ "            <!-- Chart.js Library -->"
    ∷ "            <script src=\"https://cdn.jsdelivr.net/npm/chart.js\"></script>"
    ∷ "            <style>" ∷ "                /* Apply Inter font to the entire body */"
    ∷ "                body {" ∷ "                    font-family: 'Inter', sans-serif;"
    ∷ "                }"
    ∷ "                /* Custom height for the chart to make it more visible */"
    ∷ "                #statsChart {"
    ∷ "                    max-height: 250px; /* Adjust as needed */"
    ∷ "                    width: 100%;" ∷ "                }" ∷ "            </style>"
    ∷ "        </head>"
    ∷ "        <body class=\"bg-gray-100 min-h-screen flex items-center justify-center p-4\">"
    ∷ "            <div class=\"max-w-3xl w-full bg-white rounded-xl shadow-lg p-6 md:p-8\">"
    ∷ "                <h1 class=\"text-3xl md:text-4xl font-bold text-blue-600 mb-6 text-center\">Stats for Your Short Link</h1>"
    ∷ "" ∷ "                <div class=\"grid grid-cols-1 md:grid-cols-2 gap-6 mb-8\">"
    ∷ "                    <!-- Short URL and Code Card -->"
    ∷ "                    <div class=\"bg-blue-50 p-6 rounded-lg border border-blue-200\">"
    ∷ "                        <p class=\"text-lg font-medium text-gray-700 mb-2\">"
    ∷ "                            <strong>Short URL:</strong>"
    ∷ "                            <span class=\"font-mono text-blue-700 break-all\">"
    ∷ "                                <a href=\"/r/" ∷ [])

unfoldable pub stats_link : Bytes
stats_link = text (
    "\" target=\"_blank\" class=\"hover:underline\">" ∷ "                                    /r/"
    ∷ [])

unfoldable pub stats_code : Bytes
stats_code = text (
    "" ∷ "                                </a>" ∷ "                            </span>"
    ∷ "                        </p>"
    ∷ "                        <p class=\"text-lg font-medium text-gray-700\">"
    ∷ "                            <strong>Code:</strong>"
    ∷ "                            <span class=\"font-mono text-blue-700 break-all\">"
    ∷ "                                " ∷ [])

unfoldable pub stats_total : Bytes
stats_total = text (
    "" ∷ "                            </span>" ∷ "                        </p>"
    ∷ "                    </div>" ∷ "" ∷ "                    <!-- Total Clicks Card -->"
    ∷ "                    <div class=\"bg-green-50 p-6 rounded-lg border border-green-200 flex items-center justify-center\">"
    ∷ "                        <p class=\"text-2xl font-bold text-green-700\">"
    ∷ "                            Total Clicks:"
    ∷ "                            <span class=\"text-green-900\">"
    ∷ "                                " ∷ [])

unfoldable pub stats_table : Bytes
stats_table = text (
    "" ∷ "                            </span>" ∷ "                        </p>"
    ∷ "                    </div>" ∷ "                </div>" ∷ ""
    ∷ "                <!-- Clicks Over Time Section -->"
    ∷ "                <div class=\"bg-white rounded-xl shadow-md p-6 mb-8\">"
    ∷ "                    <h2 class=\"text-2xl md::text-3xl font-semibold text-blue-600 mb-4\">Clicks Over Time</h2>"
    ∷ "                    <canvas id=\"statsChart\" height=\"120\"></canvas>"
    ∷ "                </div>" ∷ "" ∷ "                <!-- Daily Clicks Table -->"
    ∷ "                <div class=\"bg-white rounded-xl shadow-md p-6\">"
    ∷ "                    <h2 class=\"text-2xl md:text-3xl font-semibold text-blue-600 mb-4\">Daily Clicks Data</h2>"
    ∷ "                    <div class=\"overflow-x-auto rounded-lg border border-gray-200\">"
    ∷ "                        <table class=\"min-w-full divide-y divide-gray-200\">"
    ∷ "                            <thead class=\"bg-gray-50\">"
    ∷ "                                <tr>"
    ∷ "                                    <th scope=\"col\" class=\"px-6 py-3 text-left text-xs font-medium text-gray-500 uppercase tracking-wider rounded-tl-lg\">Date</th>"
    ∷ "                                    <th scope=\"col\" class=\"px-6 py-3 text-left text-xs font-medium text-gray-500 uppercase tracking-wider rounded-tr-lg\">Clicks</th>"
    ∷ "                                </tr>" ∷ "                            </thead>"
    ∷ "                            <tbody class=\"bg-white divide-y divide-gray-200\">" ∷ [])

unfoldable pub stats_dates : Bytes
stats_dates = text (
    "</tbody>" ∷ "                        </table>" ∷ "                    </div>"
    ∷ "                </div>" ∷ "" ∷ "                <script>"
    ∷ "                    // These arrays are populated directly by the C++ backend"
    ∷ "                    const dates = [" ∷ [])

unfoldable pub stats_clicks : Bytes
stats_clicks = text ("];" ∷ "                    const clicks = [" ∷ [])

unfoldable pub stats_chart : Bytes
stats_chart = text (
    "];" ∷ ""
    ∷ "                    const ctx = document.getElementById('statsChart').getContext('2d');"
    ∷ "                    const chart = new Chart(ctx, {" ∷ "                        type: 'bar',"
    ∷ "                        data: {" ∷ "                            labels: dates,"
    ∷ "                            datasets: [{"
    ∷ "                                label: 'Clicks',"
    ∷ "                                data: clicks,"
    ∷ "                                backgroundColor: 'rgba(59, 130, 246, 0.6)', // Tailwind blue-500 with opacity"
    ∷ "                                borderColor: 'rgba(37, 99, 235, 1)',      // Tailwind blue-600"
    ∷ "                                borderWidth: 1,"
    ∷ "                                borderRadius: 4, // Rounded corners for bars"
    ∷ "                            }]" ∷ "                        },"
    ∷ "                        options: {" ∷ "                            responsive: true,"
    ∷ "                            maintainAspectRatio: false, // Allows the chart to take full height of its container"
    ∷ "                            plugins: {" ∷ "                                legend: {"
    ∷ "                                    display: true,"
    ∷ "                                    position: 'top',"
    ∷ "                                    labels: {"
    ∷ "                                        font: {"
    ∷ "                                            size: 14,"
    ∷ "                                            family: 'Inter',"
    ∷ "                                        }" ∷ "                                    }"
    ∷ "                                }," ∷ "                                tooltip: {"
    ∷ "                                    callbacks: {"
    ∷ "                                        label: function(context) {"
    ∷ "                                            let label = context.dataset.label || '';"
    ∷ "                                            if (label) {"
    ∷ "                                                label += ': ';"
    ∷ "                                            }"
    ∷ "                                            label += context.parsed.y;"
    ∷ "                                            return label + ' clicks';"
    ∷ "                                        }" ∷ "                                    },"
    ∷ "                                    bodyFont: {"
    ∷ "                                        family: 'Inter',"
    ∷ "                                    }," ∷ "                                    titleFont: {"
    ∷ "                                        family: 'Inter',"
    ∷ "                                        weight: 'bold',"
    ∷ "                                    }" ∷ "                                }"
    ∷ "                            }," ∷ "                            scales: {"
    ∷ "                                y: {"
    ∷ "                                    beginAtZero: true,"
    ∷ "                                    grid: {"
    ∷ "                                        color: 'rgba(0, 0, 0, 0.05)',"
    ∷ "                                    }," ∷ "                                    ticks: {"
    ∷ "                                        font: {"
    ∷ "                                            family: 'Inter',"
    ∷ "                                        }" ∷ "                                    }"
    ∷ "                                }," ∷ "                                x: {"
    ∷ "                                    grid: {"
    ∷ "                                        display: false,"
    ∷ "                                    }," ∷ "                                    ticks: {"
    ∷ "                                        font: {"
    ∷ "                                            family: 'Inter',"
    ∷ "                                        }" ∷ "                                    }"
    ∷ "                                }" ∷ "                            }"
    ∷ "                        }" ∷ "                    });" ∷ "                </script>"
    ∷ "            </div>" ∷ "        </body>" ∷ "        </html>" ∷ [])

abbrev pub cell : Bytes
cell = codes "<td class=\"px-6 py-4 whitespace-nowrap text-sm text-gray-900\">"

unfoldable pub show_rows : StrMap ℕ → Bytes
show_rows [] = []
show_rows ((day, clicks) ∷ daily) =
    codes "<tr>"
    ++ (cell
        ++ (day
            ++ (codes "</td>"
                ++ (cell
                    ++ (to_string (pos clicks) ++ (codes "</td></tr>\n" ++ show_rows daily))))))

abbrev pub quoted_days : StrMap ℕ → List Bytes
quoted_days [] = []
quoted_days ((day, clicks) ∷ daily) = (codes "\"" ++ (day ++ codes "\"")) ∷ quoted_days daily

abbrev pub shown_clicks : StrMap ℕ → List Bytes
shown_clicks [] = []
shown_clicks ((day, clicks) ∷ daily) = to_string (pos clicks) ∷ shown_clicks daily

-- The code is written as it is.
unfoldable pub stats_page : Bytes → ClickStats → Bytes
stats_page code stats =
    stats_title
    ++ (code
        ++ (stats_style
            ++ (code
                ++ (stats_link
                    ++ (code
                        ++ (stats_code
                            ++ (code
                                ++ (stats_total
                                    ++ (to_string (pos stats.total_clicks)
                                        ++ (stats_table
                                            ++ (show_rows stats.daily_clicks
                                                ++ (stats_dates
                                                    ++ (comma_list (quoted_days stats.daily_clicks)
                                                        ++ (stats_clicks
                                                            ++ (comma_list
                                                            (shown_clicks stats.daily_clicks)
                                                            ++ stats_chart)))))))))))))))
